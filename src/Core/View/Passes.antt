-- ===== src/Core/View/Passes.antt =====
-- What the two passes of `render_excluding` leave in their maps.
use ko_ls.Base.{
  Bool, true, false, not, Option, none, some, List, [], ◌∷◌, ◌++◌, map, if◌then◌else◌, ◌≡◌, refl,
  sym, ap, ◌∙◌, arith, Option-cases, inl, inr,
}
use mathlib.Core.List.{append-nil, append_assoc}
use ko_ls.Base.Order.{bytes_ord, ◌==◌}
use ko_ls.Base.BTreeMap.{BTreeMap, get, insert}
use ko_ls.Base.BTreeMap.Laws.{get-insert}
use ko_ls.Core.Record.{MessageId, IdentityId, Record, RecordBody}
use ko_ls.Core.Cursor.{Cursor}
use ko_ls.Core.Limits.{Withheld, excludes}
use ko_ls.Core.View.{
  RenderedMessage, Drawn, get_mut, apply_body, revise, withdraw, react, fresh, draw, pass_one,
  pass_two,
}
use ko_ls.Core.View.History.{touch_body, touch, settle, written}

-- `Option::map`
abbrev pub map_option :
    (RenderedMessage → RenderedMessage) → Option RenderedMessage → Option RenderedMessage
map_option f none = none
map_option f (some m) = some (f m)

-- Each message stands under its own identifier.
abbrev pub IsKeyed : BTreeMap MessageId RenderedMessage → Type 0
IsKeyed ms = (i : MessageId) (m : RenderedMessage) → get i ms ≡ some m → m.id ≡ i

id-touch_body :
    (who : IdentityId) (b : RecordBody) (m : RenderedMessage) → (touch_body who b m).id ≡ m.id
unfolding touch_body revise withdraw react
id-touch_body who (RecordBody.message text reply files) m = refl
id-touch_body who _ m = ground arith

get-get_mut :
    (f : RenderedMessage → RenderedMessage) (t i : MessageId)
    (ms : BTreeMap MessageId RenderedMessage)
    → get i (get_mut t f ms) ≡ (if i == t then map_option f (get i ms) else get i ms)
unfolding get_mut
get-get_mut f t i ms = elim (Option-cases (get t ms)) [
  | inl e ↦ ground (arith, bytes_ord.same_eq i t)
  | inr (m, e) ↦ ground (arith, bytes_ord.same_eq i t, get-insert i t (f m) ms)
]

-- A change through `get_mut` is one to the message that has the identifier.
get-get_mut_keyed :
    (f : RenderedMessage → RenderedMessage) (t i : MessageId)
    (ms : BTreeMap MessageId RenderedMessage)
    → IsKeyed ms
    → get i (get_mut t f ms) ≡ map_option (λ m. if m.id == t then f m else m) (get i ms)
get-get_mut_keyed f t i ms k = elim (Option-cases (get i ms)) [
  | inl e ↦ ground (arith, get-get_mut f t i ms)
  | inr (m, e) ↦ ground (arith, get-get_mut f t i ms, k i m e)
]

map_option_same : (o : Option RenderedMessage) → o ≡ map_option (λ m. m) o
map_option_same none = refl
map_option_same (some m) = refl

get-apply_body :
    (who : IdentityId) (b : RecordBody) (i : MessageId) (ms : BTreeMap MessageId RenderedMessage)
    → IsKeyed ms
    → get i (apply_body who b ms) ≡ map_option (touch_body who b) (get i ms)
unfolding apply_body touch_body
get-apply_body who (RecordBody.message text reply files) i ms k = map_option_same (get i ms)
get-apply_body who (RecordBody.edit t text) i ms k = get-get_mut_keyed (revise who text) t i ms k
get-apply_body who (RecordBody.tombstone t) i ms k = get-get_mut_keyed (withdraw who) t i ms k
get-apply_body who (RecordBody.reaction t key remove) i ms k =
    get-get_mut_keyed (react who key remove) t i ms k
get-apply_body who (RecordBody.pin t remove) i ms k =
    get-get_mut_keyed (λ m. record m { pinned = not remove }) t i ms k
get-apply_body who (RecordBody.redaction t head) i ms k =
    get-get_mut_keyed (λ m. record m { redacted = true }) t i ms k
get-apply_body who (RecordBody.unknown u) i ms k = map_option_same (get i ms)

apply_body-IsKeyed :
    (who : IdentityId) (b : RecordBody) (ms : BTreeMap MessageId RenderedMessage)
    → IsKeyed ms
    → IsKeyed (apply_body who b ms)
apply_body-IsKeyed who b ms k i m h = elim (Option-cases (get i ms)) [
  | inl e ↦ ground (arith, get-apply_body who b i ms k)
  | inr (n, e) ↦ ground (arith, get-apply_body who b i ms k, id-touch_body who b n, k i n e)
]

-- The same of a record that may be withheld.
get_round :
    (skip : Bool) (who : IdentityId) (b : RecordBody) (i : MessageId)
    (ms : BTreeMap MessageId RenderedMessage)
    → IsKeyed ms
    → (get i (if skip then ms else apply_body who b ms)
        ≡ map_option (λ m. if skip then m else touch_body who b m) (get i ms))
      × IsKeyed (if skip then ms else apply_body who b ms)
get_round true who b i ms k = (map_option_same (get i ms), k)
get_round false who b i ms k = (get-apply_body who b i ms k, apply_body-IsKeyed who b ms k)

map_option_twice :
    (f g : RenderedMessage → RenderedMessage) (o : Option RenderedMessage)
    → map_option g (map_option f o) ≡ map_option (λ m. g (f m)) o
map_option_twice f g none = refl
map_option_twice f g (some m) = refl

-- Pass two settles each message on its own.
pub get-pass_two :
    (w : Withheld) (records : BTreeMap Cursor Record) (i : MessageId)
    (ms : BTreeMap MessageId RenderedMessage)
    → IsKeyed ms
    → get i (pass_two w ms records) ≡ map_option (settle w records) (get i ms)
unfolding pass_two settle
get-pass_two w [] i ms k = map_option_same (get i ms)
get-pass_two w ((c, r) ∷ rest) i ms k =
    let (now, keyed) = get_round (excludes w c.id) r.author r.body i ms k in
    get-pass_two w rest i (if excludes w c.id then ms else apply_body r.author r.body ms) keyed
    ∙ ap (map_option (settle w rest)) now
    ∙ map_option_twice (λ m. if excludes w c.id then m else touch r m) (settle w rest) (get i ms)

-- The messages, each inserted under its identifier.
unfoldable pub insert_each :
    List RenderedMessage → BTreeMap MessageId RenderedMessage → BTreeMap MessageId RenderedMessage
insert_each [] ms = ms
insert_each (m ∷ rest) ms = insert_each rest (insert m.id m ms)

abbrev pub ids : List RenderedMessage → List MessageId
ids = map (λ m. m.id)

-- Pass one draws the written messages, in order.
pub pass_one-written :
    (w : Withheld) (d : Drawn) (records : BTreeMap Cursor Record)
    → (pass_one w d records).messages ≡ insert_each (written w records) d.messages
unfolding pass_one draw written insert_each fresh
pass_one-written w d [] = refl
pass_one-written w d ((c, r) ∷ rest) = ground (arith, pass_one-written w (draw w d (c, r)) rest)

pub pass_one-order :
    (w : Withheld) (d : Drawn) (records : BTreeMap Cursor Record)
    → (pass_one w d records).order ≡ d.order ++ ids (written w records)
unfolding pass_one draw written fresh
pass_one-order w d [] = sym (append-nil d.order)
pass_one-order w d ((c, r) ∷ rest) = ground (
  arith,
  pass_one-order w (draw w d (c, r)) rest,
  append_assoc d.order (c.id ∷ []) (ids (written w rest)),
)
