-- ===== src/Core/View/Effects/Rendered.antt =====
-- The messages that a view renders, field by field.
use ko_ls.Base.{
  Bool, false, Option, List, [], ◌∷◌, map, is_some, if◌then◌else◌, ◌≡◌, refl, ap, ◌∙◌, arith,
}
use ko_ls.Base.Order.{Bytes, bytes_ord}
use ko_ls.Base.Int.{ℤ}
use ko_ls.Base.BTreeMap.{BTreeMap}
use ko_ls.Platform.{Platform}
use ko_ls.Core.Hlc.{Hlc}
use ko_ls.Core.Record.{MessageId, IdentityId, Attachment, Record, RecordBody}
use ko_ls.Core.Cursor.{Cursor}
use ko_ls.Core.Limits.{ReaderLimits, Withheld, excludes}
use ko_ls.Core.View.{ChannelView, RenderedMessage, fresh, render, view_withheld}
use ko_ls.Core.View.History.{settle, written, history}
use ko_ls.Core.View.Drain.{HasDistinctPositions}
use ko_ls.Core.View.Rendering.{render-eq-history}
use ko_ls.Core.View.Effects.{
  revision, withdraws, redacts, last_text, any_live, body-settle, withdrawn-settle,
}

-- A message record at its position.
pub record Post : Type 0 where
  pub at : Cursor
  pub author : IdentityId
  pub text : Bytes
  pub reply_to : Option MessageId
  pub attachments : List Attachment

-- The message records that are not withheld, in merge order.
pub posts : Withheld → BTreeMap Cursor Record → List Post
posts w [] = []
posts w ((c, r) ∷ rest) =
    let later = posts w rest in
    if excludes w c.id then later else elim r.body [
      | RecordBody.message text reply files ↦
          record { at = c; author = r.author; text = text; reply_to = reply; attachments = files }
          ∷ later
      | _ ↦ later
    ]

-- A post before anything is done to it.
abbrev first : Post → RenderedMessage
first q = record {
  id = q.at.id;
  author = q.author;
  hlc = q.at.hlc;
  body = q.text;
  reply_to = q.reply_to;
  attachments = q.attachments;
  edited = false;
  withdrawn = false;
  redacted = false;
  reactions = [];
  pinned = false;
}

written-posts :
    (w : Withheld) (records : BTreeMap Cursor Record)
    → written w records ≡ map first (posts w records)
unfolding written posts fresh
written-posts w [] = refl
written-posts w ((c, r) ∷ rest) = ground (arith, written-posts w rest)

-- What a message says, and of whom.
abbrev pub Said : Type 0
Said = MessageId × IdentityId × Hlc × Option MessageId × List Attachment × Bytes

abbrev pub said : RenderedMessage → Said
said m = (m.id, m.author, m.hlc, m.reply_to, m.attachments, m.body)

abbrev pub posted : Withheld → BTreeMap Cursor Record → Post → Said
posted w records q = (
  q.at.id,
  q.author,
  q.at.hlc,
  q.reply_to,
  q.attachments,
  last_text w q.at.id q.author q.text records,
)

-- Its identifier, whether it is withdrawn, redacted, and edited.
abbrev pub Marks : Type 0
Marks = MessageId × Bool × Bool × Bool

abbrev pub marks : RenderedMessage → Marks
marks m = (m.id, m.withdrawn, m.redacted, m.edited)

abbrev pub marked : Withheld → BTreeMap Cursor Record → Post → Marks
marked w records q = (
  q.at.id,
  any_live w (λ r. withdraws q.at.id q.author r.author r.body) records,
  any_live w (λ r. redacts q.at.id r.body) records,
  any_live w (λ r. is_some (revision q.at.id q.author r.author r.body)) records,
)

module _ (w : Withheld) (records : BTreeMap Cursor Record) where
  said-settled :
      (qs : List Post)
      → map said (map (settle w records) (map first qs)) ≡ map (posted w records) qs
  said-settled [] = refl
  said-settled (q ∷ qs) =
      let e = body-settle w records (first q) in
      λ j. (e.0 j, e.1 j, e.2 j, e.3 j, e.4 j, e.5 j) ∷ said-settled qs j

  marks-settled :
      (qs : List Post)
      → map marks (map (settle w records) (map first qs)) ≡ map (marked w records) qs
  marks-settled [] = refl
  marks-settled (q ∷ qs) =
      let same = (body-settle w records (first q)).0 in
      let e = withdrawn-settle w records (first q) in
      λ j. (same j, e.0 j, e.1 j, e.2 j) ∷ marks-settled qs j

module _ (p : Platform) (l : ReaderLimits) (now : ℤ) where
  render-settled :
      (v : ChannelView)
      → HasDistinctPositions v.records
      → let w = view_withheld p l now v in
        render p l now v ≡ map (settle w v.records) (map first (posts w v.records))
  unfolding history
  render-settled v d =
      let w = view_withheld p l now v in
      render-eq-history p l now v d ∙ ap (map (settle w v.records)) (written-posts w v.records)

  -- Where no two positions share an identifier, the rendered messages are the message records that
  -- are not withheld, in merge order: each with the identifier and reading of its position, its own
  -- author, what it replies to and its attachments, whatever other records say, and with the text
  -- that its own author's last revision that is not withheld gives it, or else its own.
  pub body-render :
      (v : ChannelView)
      → HasDistinctPositions v.records
      → let w = view_withheld p l now v in
        map said (render p l now v) ≡ map (posted w v.records) (posts w v.records)
  body-render v d =
      let w = view_withheld p l now v in
      ap (map said) (render-settled v d) ∙ said-settled w v.records (posts w v.records)

  -- Where no two positions share an identifier, each rendered message is withdrawn exactly if its
  -- own author withdraws it, redacted exactly if some record redacts it, and edited exactly if its
  -- own author revises it, among the view's records that are not withheld.
  pub withdrawn-render :
      (v : ChannelView)
      → HasDistinctPositions v.records
      → let w = view_withheld p l now v in
        map marks (render p l now v) ≡ map (marked w v.records) (posts w v.records)
  withdrawn-render v d =
      let w = view_withheld p l now v in
      ap (map marks) (render-settled v d) ∙ marks-settled w v.records (posts w v.records)
