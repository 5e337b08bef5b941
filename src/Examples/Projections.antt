-- ===== src/Examples/Projections.antt =====
-- A short script folded into a projection.
use ko_ls.Base.{true, [], ◌∷◌, map, All, ◌≡◌, refl, arith}
use ko_ls.Base.Order.{bytes_ord, cmp_bytes, cmp_on, cmp_pair, ◌≺◌}
use ko_ls.Base.Int.{pos, cmp_ℤ, int_ord}
use ko_ls.Base.BTreeMap.{get}
use ko_ls.Core.Limits.{ReaderLimits, withheld}
use ko_ls.Core.Record.{id}
use ko_ls.Store.Verdict.{fold_records, row_of}
use ko_ls.Store.Verdict.Readings.{verdict_of}
use ko_ls.Store.Verdict.Rising.{IsDated, IsRising}
use ko_ls.Store.Verdict.Folded.{fold_records-withheld}
use ko_ls.Examples.Values.{script, script-IsDistinct}
use ko_ls.Examples.Tiny.{tiny}

-- A message and a reaction a minute, and ten seconds between messages.
abbrev paced : ReaderLimits
paced = record {
  message_rate_per_minute = pos 1;
  reaction_rate_per_minute = pos 1;
  message_max_bytes = 100;
  max_future_skew_millis = pos 60000;
  slowmode_seconds = 10;
}

script-IsRising : IsRising script
unfolding cmp_bytes cmp_ℤ cmp_on cmp_pair
script-IsRising = ((λ e. refl, (λ e. refl, tt)), ((λ e. refl, tt), (tt, tt)))

script-IsDated : All (λ s. IsDated s.hlc) script
script-IsDated =
    ((omega arith, omega arith), ((omega arith, omega arith), ((omega arith, omega arith), tt)))

paced_rate : (pos 0 ≺ paced.message_rate_per_minute) ≡ true
unfolding cmp_ℤ
paced_rate = refl

fold_records-withheld_example :
    fold_records tiny paced [] script
    ≡ map
        (λ r.
          row_of tiny r
            (verdict_of (get (id tiny r) (withheld tiny paced (pos 5000) script).refused)))
        script
fold_records-withheld_example =
    fold_records-withheld tiny paced (pos 5000) (1 ∷ []) paced_rate paced_rate script
      script-IsDistinct (refl, (refl, (refl, tt))) script-IsRising script-IsDated
