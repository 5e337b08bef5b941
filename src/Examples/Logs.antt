-- ===== src/Examples/Logs.antt =====
-- An author's log: pushes, a publish, and a lost collision.
use ko_ls.Base.{
  ℕ, ◌+◌, ◌%◌, ◌^◌, true, ◌&&◌, List, [], ◌∷◌, ◌++◌, In, if◌then◌else◌, ◌≡◌, ◌↔◌, refl, sym, ap,
  ◌∙◌,
}
use mathlib.Core.List.{append_assoc, append-nil}
use ko_ls.Base.Order.{Bytes, bytes_ord, cmp_bytes, cmp_on, cmp_pair, ◌==◌}
use ko_ls.Base.Int.{cmp_ℤ}
use ko_ls.Base.Result.{ok, err, is_ok}
use ko_ls.Base.BTreeMap.{values}
use ko_ls.Platform.Laws.{IsAppendOnly, extend_all, concat}
use ko_ls.Core.Hlc.{encode_hlc}
use ko_ls.Core.Record.{Record, id, canonical_bytes as record_bytes, payload, encode_body, tag}
use ko_ls.Core.Segment.{new, canonical_bytes, ascending, per_device_strict, framed}
use ko_ls.Core.Segment.Order.{values-insert_all}
use ko_ls.Core.Log.{
  AuthorLog, Published, open_log, push, publish_current, rebased, update_times, next_pointer,
  last_by,
}
use ko_ls.Core.Log.Encoding.{Reachable, opened, after_push, publish_current-object}
use ko_ls.Core.Log.Devices.{push-per_device_strict}
use ko_ls.Core.Log.Rebase.{rebased-records}
use ko_ls.Core.View.Admission.{insert_all}
use ko_ls.Examples.Values.{
  shelf, alice, hello, answer, revised, script, script-IsDistinct, IsCollisionFree-of,
}
use ko_ls.Examples.Tiny.{tiny}

extended_shelf :
    (spec : ℕ) (before : Bytes) (key : ℕ) (first : Bytes) (rest : List Bytes) (d : ℕ)
    → extend_all shelf (spec, before, key) (first ∷ rest) d
      ≡ (spec, before ++ concat (first ∷ rest), d)
unfolding extend_all concat
extended_shelf spec before key first [] d =
    ap (λ b. (spec, before ++ b, d)) (sym (append-nil first))
extended_shelf spec before key first (next ∷ rest) d =
    extended_shelf spec (before ++ first) d next rest d
    ∙ ap (λ b. (spec, b, d)) (append_assoc before first (concat (next ∷ rest)))

shelf-IsAppendOnly : IsAppendOnly shelf
shelf-IsAppendOnly = record {
  shared-extend_all = λ spec first rest d. extended_shelf spec [] 0 first rest d;
}

abbrev opened_log : AuthorLog tiny shelf
opened_log = open_log tiny shelf alice (1 ∷ []) 7 64

abbrev written : AuthorLog tiny shelf
written = (push tiny shelf alice revised (push tiny shelf alice hello opened_log).1).1

written-Reachable : Reachable tiny shelf written
written-Reachable = after_push alice revised (after_push alice hello (opened alice (1 ∷ []) 7 64))

abbrev published : Published tiny shelf
published = elim (publish_current tiny shelf alice true written).0 [
  | ok out ↦ out
  | err e ↦ record { object = (0, [], 0); pointer = ([], 0, []); new_chunks = [] }
]

published_ok : (publish_current tiny shelf alice true written).0 ≡ ok published
unfolding publish_current push next_pointer update_times open_log last_by new cmp_bytes cmp_ℤ cmp_on
    cmp_pair
published_ok = refl

publish_current-object_example :
    published.object ≡ shelf.encode (canonical_bytes tiny written.segment) written.dek written.spec
publish_current-object_example =
    publish_current-object tiny shelf alice true written published shelf-IsAppendOnly
      written-Reachable published_ok

opened_log-strict : per_device_strict [] opened_log.segment.records ≡ true
unfolding open_log new per_device_strict
opened_log-strict = refl

push-per_device_strict_example :
    (is_ok (push tiny shelf alice hello opened_log).0 ≡ (
      (hello.channel == opened_log.channel)
      && ((hello.author == alice)
          && per_device_strict [] (opened_log.segment.records ++ hello ∷ []))))
    × ((push tiny shelf alice hello opened_log).1 ≡ (
        if is_ok (push tiny shelf alice hello opened_log).0
        then record opened_log {
          segment = record opened_log.segment {
            records = opened_log.segment.records ++ hello ∷ [];
          };
          encoder = shelf.extend opened_log.encoder (framed tiny hello) opened_log.dek;
          unpublished = (opened_log.unpublished + 1) % 2 ^ 64;
        }
        else opened_log))
push-per_device_strict_example =
    push-per_device_strict tiny shelf alice hello opened_log opened_log-strict

abbrev mine : AuthorLog tiny shelf
mine = record opened_log { segment = record opened_log.segment { records = answer ∷ revised ∷ [] } }

abbrev other : AuthorLog tiny shelf
other = record opened_log { segment = record opened_log.segment { records = hello ∷ [] } }

rebased-records_example :
    ((r : Record)
      → In r (rebased tiny shelf ([], 0, []) other.segment mine).segment.records
        ↔ In r (other.segment.records ++ mine.segment.records))
    × (ascending tiny (rebased tiny shelf ([], 0, []) other.segment mine).segment.records ≡ true)
    × ((rebased tiny shelf ([], 0, []) other.segment mine).segment.records
        ≡ (rebased tiny shelf ([], 0, []) mine.segment other).segment.records)
rebased-records_example =
    rebased-records tiny shelf ([], 0, []) ([], 0, []) mine other
      (IsCollisionFree-of script script-IsDistinct)

script-ascending : ascending tiny script ≡ true
unfolding ascending id record_bytes payload encode_body encode_hlc tag cmp_bytes cmp_ℤ cmp_on
    cmp_pair
script-ascending = refl

values-insert_all_example : values (insert_all tiny script []) ≡ script
values-insert_all_example = values-insert_all tiny script script-ascending
