-- ===== src/Core/View/History.antt =====
-- The history that a rendering stands for, message by message: each message as first written, and
-- on it every record that targets it, in merge order.
use ko_ls.Base.{true, not, List, [], ◌∷◌, map, if◌then◌else◌}
use ko_ls.Base.Order.{bytes_ord, ◌==◌}
use ko_ls.Base.BTreeMap.{BTreeMap}
use ko_ls.Core.Record.{IdentityId, Record, RecordBody}
use ko_ls.Core.Cursor.{Cursor}
use ko_ls.Core.Limits.{Withheld, excludes}
use ko_ls.Core.View.{RenderedMessage, revise, withdraw, react, fresh}

-- What a record does to a message.
unfoldable pub touch_body : IdentityId → RecordBody → RenderedMessage → RenderedMessage
touch_body who (RecordBody.message text reply files) m = m
touch_body who (RecordBody.edit target text) m = if m.id == target then revise who text m else m
touch_body who (RecordBody.tombstone target) m = if m.id == target then withdraw who m else m
touch_body who (RecordBody.reaction target key remove) m =
    if m.id == target then react who key remove m else m
touch_body who (RecordBody.pin target remove) m =
    if m.id == target then record m { pinned = not remove } else m
touch_body who (RecordBody.redaction target head) m =
    if m.id == target then record m { redacted = true } else m
touch_body who (RecordBody.unknown u) m = m

abbrev pub touch : Record → RenderedMessage → RenderedMessage
touch r = touch_body r.author r.body

-- The records that are not withheld, applied to one message in merge order.
unfoldable pub settle : Withheld → BTreeMap Cursor Record → RenderedMessage → RenderedMessage
settle w [] m = m
settle w ((c, r) ∷ rest) m = settle w rest (if excludes w c.id then m else touch r m)

-- The messages that are not withheld, as first written, in merge order.
unfoldable pub written : Withheld → BTreeMap Cursor Record → List RenderedMessage
written w [] = []
written w ((c, r) ∷ rest) =
    let later = written w rest in
    if excludes w c.id then later else elim r.body [
      | RecordBody.message text reply files ↦ fresh c r text reply files ∷ later
      | _ ↦ later
    ]

unfoldable pub history : Withheld → BTreeMap Cursor Record → List RenderedMessage
history w records = map (settle w records) (written w records)
