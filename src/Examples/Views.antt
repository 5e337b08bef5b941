-- ===== src/Examples/Views.antt =====
-- Deliveries to a view and its renderings.
use ko_ls.Base.{true, some, List, [], ◌∷◌, map, In, inl, inr, ◌≡◌, ◌↔◌, refl}
use ko_ls.Base.Order.{cmp_bytes}
use ko_ls.Base.Int.{pos}
use ko_ls.Base.BTreeMap.{get}
use ko_ls.Core.Hlc.{encode_hlc}
use ko_ls.Core.Record.{Record, id, canonical_bytes, payload, encode_body, tag}
use ko_ls.Core.Cursor.{cursor, cursor_ord}
use ko_ls.Core.Limits.{ReaderLimits}
use ko_ls.Core.View.{ChannelView, new, admit, render, view_withheld}
use ko_ls.Core.View.History.{history}
use ko_ls.Core.View.Admission.{passes, get-admit}
use ko_ls.Core.View.Convergence.{SameRecords, render-admit_same}
use ko_ls.Core.View.Drain.{HasDistinctPositions}
use ko_ls.Core.View.Rendering.{render-eq-history}
use ko_ls.Core.View.Effects.Rendered.{
  said, posted, posts, marks, marked, body-render, withdrawn-render,
}
use ko_ls.Examples.Values.{
  room, limits, anybody, hello, answer, revised, script, script-IsDistinct, IsCollisionFree-of,
}
use ko_ls.Examples.Tiny.{tiny}

-- Out of order, and with a repetition.
abbrev shuffled : List Record
shuffled = revised ∷ hello ∷ answer ∷ hello ∷ []

shuffled-SameRecords : SameRecords script shuffled
shuffled-SameRecords r = (there, back)
  where
    there : In r script → In r shuffled
    there (inl e) = inr (inl e)
    there (inr (inl e)) = inr (inr (inl e))
    there (inr (inr (inl e))) = inl e
    there (inr (inr (inr i))) = absurd i

    back : In r shuffled → In r script
    back (inl e) = inr (inr (inl e))
    back (inr (inl e)) = inl e
    back (inr (inr (inl e))) = inr (inl e)
    back (inr (inr (inr (inl e)))) = inl e
    back (inr (inr (inr (inr i)))) = absurd i

render-admit_same_example :
    (render tiny limits (pos 5000) (admit tiny anybody limits (new room) script)
      ≡ render tiny limits (pos 5000) (admit tiny anybody limits (new room) shuffled))
    × (view_withheld tiny limits (pos 5000) (admit tiny anybody limits (new room) script)
        ≡ view_withheld tiny limits (pos 5000) (admit tiny anybody limits (new room) shuffled))
render-admit_same_example =
    render-admit_same tiny anybody limits room (pos 5000) script shuffled shuffled-SameRecords
      (IsCollisionFree-of script script-IsDistinct)

get-admit_example :
    (get (cursor tiny hello) (admit tiny anybody limits (new room) script).records ≡ some hello) ↔ (
      In hello script
      × (passes tiny anybody limits room hello ≡ true)
      × (cursor tiny hello ≡ cursor tiny hello))
get-admit_example =
    get-admit tiny anybody limits room script (cursor tiny hello) hello
      (IsCollisionFree-of script script-IsDistinct)

abbrev shown : ChannelView
shown = record (new room) {
  records =
      (cursor tiny hello, hello)
      ∷ (cursor tiny answer, answer)
      ∷ (cursor tiny revised, revised)
      ∷ [];
}

shown-HasDistinctPositions : HasDistinctPositions shown.records
unfolding cursor id canonical_bytes payload encode_body encode_hlc tag cmp_bytes
shown-HasDistinctPositions = ((refl, (refl, tt)), ((refl, tt), (tt, tt)))

render-eq-history_example :
    render tiny limits (pos 5000) shown
    ≡ history (view_withheld tiny limits (pos 5000) shown) shown.records
render-eq-history_example =
    render-eq-history tiny limits (pos 5000) shown shown-HasDistinctPositions

-- Without a ceiling, the revision counts.
abbrev loose : ReaderLimits
loose = record limits { message_rate_per_minute = pos 0 }

body-render_example :
    map said (render tiny loose (pos 5000) shown)
    ≡ map
        (posted (view_withheld tiny loose (pos 5000) shown) shown.records)
        (posts (view_withheld tiny loose (pos 5000) shown) shown.records)
body-render_example = body-render tiny loose (pos 5000) shown shown-HasDistinctPositions

withdrawn-render_example :
    map marks (render tiny loose (pos 5000) shown)
    ≡ map
        (marked (view_withheld tiny loose (pos 5000) shown) shown.records)
        (posts (view_withheld tiny loose (pos 5000) shown) shown.records)
withdrawn-render_example = withdrawn-render tiny loose (pos 5000) shown shown-HasDistinctPositions
