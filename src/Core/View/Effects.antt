-- ===== src/Core/View/Effects.antt =====
-- Who can change what about a message, in the history that a rendering stands for.
pub mod Rendered
use ko_ls.Base.{
  Bool, false, ◌&&◌, ◌||◌, not, Option, none, some, is_some, [], ◌∷◌, any, if◌then◌else◌, ◌≡◌, refl,
  arith, ◌∙◌, Bool-cases, inl, inr,
}
use ko_ls.Base.Order.{Bytes, bytes_ord, ◌==◌}
use ko_ls.Base.BTreeMap.{BTreeMap}
use ko_ls.Core.Record.{MessageId, IdentityId, Record, RecordBody}
use ko_ls.Core.Cursor.{Cursor}
use ko_ls.Core.Limits.{Withheld, excludes}
use ko_ls.Core.View.{RenderedMessage, revise, withdraw, react}
use ko_ls.Core.View.History.{touch_body, touch, settle}

-- The revision that a body makes of this author's message, if it does.
unfoldable pub revision : MessageId → IdentityId → IdentityId → RecordBody → Option Bytes
revision i author who (RecordBody.edit target text) =
    if (i == target) && (author == who) then some text else none
revision i author who _ = none

-- The body withdraws this author's message.
unfoldable pub withdraws : MessageId → IdentityId → IdentityId → RecordBody → Bool
withdraws i author who (RecordBody.tombstone target) = (i == target) && (author == who)
withdraws i author who _ = false

unfoldable pub redacts : MessageId → RecordBody → Bool
redacts i (RecordBody.redaction target head) = i == target
redacts i _ = false

-- The text after the author's own revisions among the records that are not withheld: that of the
-- last of them.
unfoldable pub last_text :
    Withheld → MessageId → IdentityId → Bytes → BTreeMap Cursor Record → Bytes
last_text w i author text [] = text
last_text w i author text ((c, r) ∷ rest) =
    last_text w i author
      (if excludes w c.id
        then text
        else elim (revision i author r.author r.body) [ none ↦ text | some new ↦ new ])
      rest

-- One of the records that are not withheld passes the test.
abbrev pub any_live : Withheld → (Record → Bool) → BTreeMap Cursor Record → Bool
any_live w f = any (λ e. not (excludes w e.0.id) && f e.1)

-- One record's effect on each field.
abbrev Effect : IdentityId → RecordBody → RenderedMessage → RenderedMessage → Type 0
Effect who b m n =
    (n.id ≡ m.id)
    × (n.author ≡ m.author)
    × (n.hlc ≡ m.hlc)
    × (n.reply_to ≡ m.reply_to)
    × (n.attachments ≡ m.attachments)
    × (n.body ≡ (elim (revision m.id m.author who b) [ none ↦ m.body | some new ↦ new ]))
    × (n.withdrawn ≡ (m.withdrawn || withdraws m.id m.author who b))
    × (n.redacted ≡ (m.redacted || redacts m.id b))
    × (n.edited ≡ (m.edited || is_some (revision m.id m.author who b)))

touch_body_lem :
    (who : IdentityId) (b : RecordBody) (m : RenderedMessage) → Effect who b m (touch_body who b m)
unfolding touch_body revise withdraw react revision withdraws redacts
touch_body_lem who (RecordBody.edit target text) m = (
  ground arith,
  ground arith,
  ground arith,
  ground arith,
  ground arith,
  ground arith,
  ground arith,
  ground arith,
  ground arith,
)
touch_body_lem who _ m = (
  ground arith,
  ground arith,
  ground arith,
  ground arith,
  ground arith,
  ground arith,
  ground arith,
  ground arith,
  ground arith,
)

-- A record that may be withheld.
round_lem :
    (w : Withheld) (c : Cursor) (r : Record) (m : RenderedMessage)
    → let n = if excludes w c.id then m else touch r m in
      (n.id ≡ m.id)
      × (n.author ≡ m.author)
      × (n.hlc ≡ m.hlc)
      × (n.reply_to ≡ m.reply_to)
      × (n.attachments ≡ m.attachments)
      × (n.body ≡ (
          if excludes w c.id
          then m.body
          else elim (revision m.id m.author r.author r.body) [ none ↦ m.body | some new ↦ new ]))
      × (n.withdrawn
          ≡ (m.withdrawn || (not (excludes w c.id) && withdraws m.id m.author r.author r.body)))
      × (n.redacted ≡ (m.redacted || (not (excludes w c.id) && redacts m.id r.body)))
      × (n.edited ≡ (
          m.edited || (not (excludes w c.id) && is_some (revision m.id m.author r.author r.body))))
round_lem w c r m = elim (Bool-cases (excludes w c.id)) [
  | inl e ↦ rw e (refl, refl, refl, refl, refl, refl, ground arith, ground arith, ground arith)
  | inr e ↦ rw e (touch_body_lem r.author r.body m)
]

-- The records behind a message never change its identifier, author, reading, what it replies to or
-- its attachments; its text is that of its own author's last revision that is not withheld.
pub body-settle :
    (w : Withheld) (records : BTreeMap Cursor Record) (m : RenderedMessage)
    → let n = settle w records m in
      (n.id ≡ m.id)
      × (n.author ≡ m.author)
      × (n.hlc ≡ m.hlc)
      × (n.reply_to ≡ m.reply_to)
      × (n.attachments ≡ m.attachments)
      × (n.body ≡ last_text w m.id m.author m.body records)
unfolding settle last_text
body-settle w [] m = (refl, refl, refl, refl, refl, refl)
body-settle w ((c, r) ∷ rest) m =
    let now = round_lem w c r m in
    let later = body-settle w rest (if excludes w c.id then m else touch r m) in
    (
      later.0 ∙ now.0,
      later.1 ∙ now.1,
      later.2 ∙ now.2,
      later.3 ∙ now.3,
      later.4 ∙ now.4,
      later.5 ∙ (λ j. last_text w (now.0 j) (now.1 j) (now.5 j) rest),
    )

-- A message ends withdrawn exactly if it was or its own author withdraws it, redacted exactly if it
-- was or some record redacts it, and edited exactly if it was or its own author revises it, among
-- the records that are not withheld.
pub withdrawn-settle :
    (w : Withheld) (records : BTreeMap Cursor Record) (m : RenderedMessage)
    → let n = settle w records m in
      (n.withdrawn
        ≡ (m.withdrawn || any_live w (λ r. withdraws m.id m.author r.author r.body) records))
      × (n.redacted ≡ (m.redacted || any_live w (λ r. redacts m.id r.body) records))
      × (n.edited ≡ (
          m.edited || any_live w (λ r. is_some (revision m.id m.author r.author r.body)) records))
unfolding settle
withdrawn-settle w [] m = (ground arith, ground arith, ground arith)
withdrawn-settle w ((c, r) ∷ rest) m =
    let now = round_lem w c r m in
    let later = withdrawn-settle w rest (if excludes w c.id then m else touch r m) in
    (ground (arith, now, later), ground (arith, now, later), ground (arith, now, later))
