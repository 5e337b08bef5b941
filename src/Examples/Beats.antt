-- ===== src/Examples/Beats.antt =====
-- A beat, sealed and opened.
use ko_ls.Base.{some, true, [], ◌∷◌, ◌++◌, ◌≡◌, refl}
use ko_ls.Base.Order.{Bytes, bytes_ord}
use ko_ls.Base.Int.{pos, cmp_ℤ}
use ko_ls.Base.Result.{ok}
use ko_ls.Base.Int.{fits_i64}
use ko_ls.Platform.{Sealing}
use ko_ls.Platform.Laws.{IsSealing}
use ko_ls.Core.Presence.{Beat, seal_beat, open_beat}
use ko_ls.Core.Presence.Exchange.{IsHolder, open_beat-seal_beat}
use ko_ls.Examples.Tiny.{tiny}
use ko_ls.Examples.Codec.{AnyText, tiny-IsCodec, repeat, tiny-IsSigning}

-- A sealing that leaves the text as it is.
abbrev pub box : Sealing
box = record {
  EpochKey = Bytes;
  Dek = Bytes;
  keyed_dek = λ epoch context. epoch ++ context;
  seal_chunk = λ d text. text;
  open_chunk = λ d text. some text;
}

pub box-IsSealing : IsSealing box
box-IsSealing = record { open_chunk-seal_chunk = λ d text. refl }

repeat-IsHolder : IsHolder tiny AnyText (repeat 32)
repeat-IsHolder = record { id_len = refl; id_key = refl; sign_len = λ text. refl }

five_fits : fits_i64 (pos 5) ≡ true
unfolding cmp_ℤ
five_fits = refl

open_beat-seal_beat_example :
    open_beat tiny box (seal_beat tiny box (repeat 32) Beat.idle (pos 5) (1 ∷ []) (2 ∷ [])) (1 ∷ [])
    ≡ ok (record { who = repeat 32; state = Beat.idle; at = pos 5 })
open_beat-seal_beat_example =
    open_beat-seal_beat tiny AnyText box (repeat 32) Beat.idle (pos 5) (1 ∷ []) (2 ∷ [])
      tiny-IsCodec tiny-IsSigning box-IsSealing repeat-IsHolder five_fits
