-- ===== src/Core/View.antt =====
-- Merging author logs into one channel history: crates/kols-core/src/view.rs.
pub mod Admission
pub mod Convergence
pub mod History
mod Passes
pub mod Drain
pub mod Rendering
pub mod Effects
use ko_ls.Base.{
  ℕ, Bool, true, false, ◌&&◌, not, Option, none, some, List, [], ◌∷◌, ◌++◌, map, filter,
  if◌then◌else◌,
}
use ko_ls.Base.Order.{Bytes, bytes_ord, ◌==◌, ◌≺◌}
use ko_ls.Base.Int.{ℤ, int_ord, checked_add}
use ko_ls.Base.Result.{Result, ok, err, ◌>>=◌, ◌>>◌, guard, map_err}
use ko_ls.Base.BTreeMap
use ko_ls.Base.BTreeMap.{BTreeMap, get, insert, keys, values}
use ko_ls.Platform.{Platform}
use ko_ls.Core.Hlc.{Hlc}
use ko_ls.Core.Record.{
  ChannelId, MessageId, IdentityId, Attachment, Record, RecordBody, id, verify_signature,
  check_bounds,
}
use ko_ls.Core.Cursor.{Cursor, cursor_ord, cursor}
use ko_ls.Core.Permissions.{Authority, Placement}
use ko_ls.Core.Limits.{
  ReaderLimits, Rejection, Withheld, BTreeSet, withheld, excludes, is_ahead, bad_signature,
  wrong_channel, not_a_member, not_permitted, not_a_moderator, too_large, too_fast,
}

pub record RenderedMessage : Type 0 where
  pub id : MessageId
  pub author : IdentityId
  pub hlc : Hlc
  pub body : Bytes
  pub reply_to : Option MessageId
  pub attachments : List Attachment
  pub edited : Bool
  pub withdrawn : Bool
  pub redacted : Bool
  pub reactions : BTreeMap Bytes (BTreeSet IdentityId)
  pub pinned : Bool

-- `RenderedMessage::is_visible`
unfoldable pub is_visible : RenderedMessage → Bool
is_visible m = not m.withdrawn && not m.redacted

pub record ChannelView : Type 0 where
  pub channel : ChannelId
  pub placement : Placement
  pub records : BTreeMap Cursor Record
  pub rejected : List (MessageId × Rejection)

-- `ChannelView::new`
unfoldable pub new : Placement → ChannelView
new place = record { channel = place.channel; placement = place; records = []; rejected = [] }

-- The authority that the body needs.
abbrev authorize : Authority → Placement → IdentityId → RecordBody → Result Rejection (Unit {0})
authorize a place who (RecordBody.redaction target head) =
    guard (a.may_moderate_at who place head) not_a_moderator
authorize a place who (RecordBody.pin target remove) =
    guard (a.may_moderate_now who place) not_a_moderator
authorize a place who _ = guard (a.may_post who place) not_permitted

-- `ChannelView::check`
unfoldable pub check :
    Platform → Authority → ReaderLimits → ChannelView → Record → Result Rejection (Unit {0})
check p a l v r = do
  guard (r.channel == v.channel) wrong_channel
  map_err (λ e. bad_signature) (verify_signature p r)
  guard (a.is_member r.author) not_a_member
  map_err (λ e. too_large) (check_bounds r l.message_max_bytes)
  authorize a v.placement r.author r.body

-- One round of `ChannelView::admit`
unfoldable pub admit_one : Platform → Authority → ReaderLimits → ChannelView → Record → ChannelView
admit_one p a l v r = elim (check p a l v r) [
  | err reason ↦ record v { rejected = v.rejected ++ (id p r, reason) ∷ [] }
  | ok _ ↦ record v { records = insert (cursor p r) r v.records }
]

-- `ChannelView::admit`
unfoldable pub admit : Platform → Authority → ReaderLimits → ChannelView → List Record → ChannelView
admit p a l v [] = v
admit p a l v (r ∷ rs) = admit p a l (admit_one p a l v r) rs

-- `messages.get_mut(target)` and what is done through it
unfoldable pub get_mut :
    MessageId
    → (RenderedMessage → RenderedMessage)
    → BTreeMap MessageId RenderedMessage
    → BTreeMap MessageId RenderedMessage
get_mut target change messages = elim (get target messages) [
  | none ↦ messages
  | some m ↦ insert target (change m) messages
]

-- One member's reaction under one key; a key that nobody is left under goes.
unfoldable pub react : IdentityId → Bytes → Bool → RenderedMessage → RenderedMessage
react who key remove m =
    let before : BTreeSet IdentityId = elim (get key m.reactions) [ none ↦ [] | some set ↦ set ] in
    let after = if remove then BTreeMap.remove who before else insert who tt before in
    let reactions = insert key after m.reactions in
    record m { reactions = elim after [ [] ↦ BTreeMap.remove key reactions | _ ∷ _ ↦ reactions ] }

-- An author's own revision, and withdrawal; those of anybody else change nothing.
unfoldable pub revise : IdentityId → Bytes → RenderedMessage → RenderedMessage
revise who text m = if m.author == who then record m { body = text; edited = true } else m

unfoldable pub withdraw : IdentityId → RenderedMessage → RenderedMessage
withdraw who m = if m.author == who then record m { withdrawn = true } else m

-- The arms of pass two.
unfoldable pub apply_body :
    IdentityId
    → RecordBody
    → BTreeMap MessageId RenderedMessage
    → BTreeMap MessageId RenderedMessage
apply_body who (RecordBody.message text reply files) messages = messages
apply_body who (RecordBody.edit target text) messages = get_mut target (revise who text) messages
apply_body who (RecordBody.tombstone target) messages = get_mut target (withdraw who) messages
apply_body who (RecordBody.reaction target key remove) messages =
    get_mut target (react who key remove) messages
apply_body who (RecordBody.pin target remove) messages =
    get_mut target (λ m. record m { pinned = not remove }) messages
apply_body who (RecordBody.redaction target head) messages =
    get_mut target (λ m. record m { redacted = true }) messages
apply_body who (RecordBody.unknown u) messages = messages

-- A message as its author first wrote it, of its entry.
unfoldable pub fresh :
    Cursor → Record → Bytes → Option MessageId → List Attachment → RenderedMessage
fresh c r text reply files = record {
  id = c.id;
  author = r.author;
  hlc = c.hlc;
  body = text;
  reply_to = reply;
  attachments = files;
  edited = false;
  withdrawn = false;
  redacted = false;
  reactions = [];
  pinned = false;
}

-- The variables of pass one.
pub record Drawn : Type 0 where
  pub messages : BTreeMap MessageId RenderedMessage
  pub order : List MessageId

unfoldable pub draw : Withheld → Drawn → Cursor × Record → Drawn
draw w d (c, r) = if excludes w c.id then d else elim r.body [
  | RecordBody.message text reply files ↦ record {
    messages = insert c.id (fresh c r text reply files) d.messages;
    order = d.order ++ c.id ∷ [];
  }
  | _ ↦ d
]

unfoldable pub pass_one : Withheld → Drawn → BTreeMap Cursor Record → Drawn
pass_one w d [] = d
pass_one w d (e ∷ rest) = pass_one w (draw w d e) rest

unfoldable pub pass_two :
    Withheld
    → BTreeMap MessageId RenderedMessage
    → BTreeMap Cursor Record
    → BTreeMap MessageId RenderedMessage
pass_two w messages [] = messages
pass_two w messages ((c, r) ∷ rest) =
    pass_two w (if excludes w c.id then messages else apply_body r.author r.body messages) rest

-- `order.into_iter().filter_map(|id| messages.remove(&id)).collect()`
unfoldable pub take_out : List MessageId → BTreeMap MessageId RenderedMessage → List RenderedMessage
take_out [] messages = []
take_out (i ∷ rest) messages =
    let later = take_out rest (BTreeMap.remove i messages) in
    elim (get i messages) [ none ↦ later | some m ↦ m ∷ later ]

-- `collect()` into a `BTreeSet` and into a `BTreeMap` to one value
unfoldable pub collect {ℓ} :
    {V : Type ℓ} → V → List MessageId → BTreeMap MessageId V → BTreeMap MessageId V
collect v [] m = m
collect v (i ∷ rest) m = collect v rest (insert i v m)

-- The records dated ahead, of `render_excluding`.
unfoldable pub held_now : Platform → ReaderLimits → ℤ → BTreeMap Cursor Record → BTreeSet MessageId
held_now p l now records =
    collect tt (map (id p) (filter (λ r. is_ahead l now r.hlc.wall_millis) (values records))) []

-- `ChannelView::render_excluding`
unfoldable pub render_excluding :
    Platform → ReaderLimits → ℤ → ChannelView → BTreeSet MessageId → List RenderedMessage
render_excluding p l now v refused =
    let w : Withheld = record {
      refused = collect too_fast (keys refused) [];
      held = held_now p l now v.records;
    } in
    let drawn = pass_one w (record { messages = []; order = [] }) v.records in
    take_out drawn.order (pass_two w drawn.messages v.records)

-- `ChannelView::withheld`
unfoldable pub view_withheld : Platform → ReaderLimits → ℤ → ChannelView → Withheld
view_withheld p l now v = withheld p l now (values v.records)

-- `ChannelView::render`
unfoldable pub render : Platform → ReaderLimits → ℤ → ChannelView → List RenderedMessage
render p l now v =
    render_excluding p l now v (collect tt (keys (view_withheld p l now v).refused) [])
