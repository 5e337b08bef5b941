-- ===== src/Store/Verdict.antt =====
-- Stored verdicts: crates/kols-store/src/verdict.rs, over the table `records` of the projection
-- (crates/kols-store/src/schema.rs), and the loop of crates/kols-node/src/store.rs that fills it.
pub mod Readings
pub mod Rising
pub mod Agreement
pub mod Folded
use Prim.Native.Nat.{Ordering}
use ko_ls.Base.{
  ℕ, Bool, true, false, ◌&&◌, not, Option, none, some, List, [], ◌∷◌, ◌++◌, map, filter, any,
  count_if, ltb, if◌then◌else◌,
}
use ko_ls.Base.Order.{Bytes, bytes_ord, ◌==◌, ◌≺◌}
use ko_ls.Base.Int.{ℤ, pos, int_ord, leb_ℤ, saturating_sub, seconds_to_millis}
use ko_ls.Base.Sorting.{sort_by}
use ko_ls.Platform.{Platform}
use ko_ls.Core.Hlc.{Hlc, hlc_ord}
use ko_ls.Core.Record.{ChannelId, MessageId, IdentityId, Record, RecordClass, class, id}
use ko_ls.Core.Limits.{ReaderLimits, Rejection, class_ord, too_fast, slowmode}

pub data Verdict : Type 0 where
  admitted over_rate too_soon : Verdict

-- `Verdict::code` and `Verdict::from_code`
unfoldable pub verdict_code : Verdict → ℤ
verdict_code admitted = pos 0
verdict_code over_rate = pos 1
verdict_code too_soon = pos 2

unfoldable pub verdict_from_code : ℤ → Verdict
verdict_from_code c = if c == pos 1 then over_rate else if c == pos 2 then too_soon else admitted

-- `Verdict::renders`
unfoldable pub renders : Verdict → Bool
renders admitted = true
renders _ = false

-- `Verdict::rejection`
unfoldable pub rejection : Verdict → Option Rejection
rejection admitted = none
rejection over_rate = some too_fast
rejection too_soon = some slowmode

-- A row of the table, without the column `target`.
pub record Row : Type 0 where
  pub channel : ChannelId
  pub hlc : Hlc
  pub id : MessageId
  pub author : IdentityId
  pub class : RecordClass
  pub verdict : ℤ

abbrev pub window_millis : ℤ
window_millis = pos 60000

-- The rows that the query of `admitted_since` selects.
unfoldable pub selects : ChannelId → IdentityId → RecordClass → ℤ → Row → Bool
selects channel author c since row =
    (row.channel == channel)
    && ((row.author == author)
        && ((row.class == c) && ((since ≺ row.hlc.wall_millis) && (row.verdict == pos 0))))

-- `Projection::admitted_since`
unfoldable pub admitted_since : List Row → ChannelId → IdentityId → RecordClass → ℤ → List Hlc
unfolding selects sort_by
admitted_since rows channel author c since =
    sort_by hlc_ord.cmp (map (λ row. row.hlc) (filter (selects channel author c since) rows))

-- Whether slowmode refuses the record, where its class is that of messages.
unfoldable pub is_too_soon : List Row → Record → ReaderLimits → Bool
unfolding admitted_since
is_too_soon rows r l =
    ltb 0 l.slowmode_seconds
    && any (λ h. h ≺ r.hlc)
        (admitted_since rows r.channel r.author RecordClass.message
          (saturating_sub r.hlc.wall_millis (seconds_to_millis l.slowmode_seconds)))

-- What `decide` does behind slowmode.
unfoldable pub decide_rate : List Row → Record → RecordClass → ℤ → Verdict
unfolding admitted_since
decide_rate rows r c ceiling =
    if leb_ℤ ceiling (pos 0)
    then admitted
    else if leb_ℤ ceiling (
        pos (
          count_if (λ h. h ≺ r.hlc)
            (admitted_since rows r.channel r.author c
              (saturating_sub r.hlc.wall_millis window_millis))))
    then over_rate
    else admitted

-- `decide`; the projection always answers.
unfoldable pub decide : List Row → Record → ReaderLimits → Verdict
unfolding is_too_soon decide_rate
decide rows r l = elim (class r.body) [
  | RecordClass.message ↦
      if is_too_soon rows r l
      then too_soon
      else decide_rate rows r RecordClass.message l.message_rate_per_minute
  | RecordClass.reaction ↦ decide_rate rows r RecordClass.reaction l.reaction_rate_per_minute
  | _ ↦ admitted
]

module _ (p : Platform) where
  abbrev pub row_of : Record → Verdict → Row
  row_of r v = record {
    channel = r.channel;
    hlc = r.hlc;
    id = id p r;
    author = r.author;
    class = class r.body;
    verdict = verdict_code v;
  }

  -- `Projection::insert`: `INSERT OR REPLACE` under the identifier.
  unfoldable pub insert_row : Record → Verdict → List Row → List Row
  unfolding verdict_code
  insert_row r v rows = filter (λ row. not (row.id == id p r)) rows ++ row_of r v ∷ []

  -- `Projection::holds`
  unfoldable pub holds_row : MessageId → List Row → Bool
  holds_row i = any (λ row. row.id == i)

  -- The loop over the records to fold in.
  unfoldable pub fold_records : ReaderLimits → List Row → List Record → List Row
  unfolding insert_row holds_row decide
  fold_records l rows [] = rows
  fold_records l rows (r ∷ rs) =
      if holds_row (id p r) rows
      then fold_records l rows rs
      else fold_records l (insert_row r (decide rows r l) rows) rs
