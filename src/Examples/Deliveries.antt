-- ===== src/Examples/Deliveries.antt =====
-- A live record, an invitation and a position, sent and read.
use ko_ls.Base.{true, none, some, [], ◌∷◌, ◌≡◌, ◌↔◌, refl, arith}
use ko_ls.Base.Order.{Bytes, cmp_bytes, cmp_pair}
use ko_ls.Base.Int.{negsuc, fits_i64, u32_max, cmp_ℤ}
use ko_ls.Base.Result.{ok, ◌>>=◌}
use ko_ls.Platform.{Invites}
use ko_ls.Core.Record.{canonical_bytes, verify_signature}
use ko_ls.Core.Record.Decode.{decode_record}
use ko_ls.Core.Cursor.{Cursor}
use ko_ls.Core.Cursor.Tokens.{to_token, from_token, from_token-to_token}
use ko_ls.Core.Live.{seal_live, open_live, encode_live, decode_live}
use ko_ls.Core.Live.Delivery.{open_live-resealed, open_live-delivered}
use ko_ls.Core.Dm.{DmInvite, verify_from}
use ko_ls.Core.Dm.Linked.{verify_from_unique}
use ko_ls.Examples.Tiny.{tiny, tiny-IsHexRead}
use ko_ls.Examples.Codec.{AnyText, repeat, foreign, foreign-IsRecord, tiny-IsCodec}
use ko_ls.Examples.Beats.{box, box-IsSealing}

foreign_signed : verify_signature tiny foreign ≡ ok tt
unfolding verify_signature cmp_bytes
foreign_signed = refl

open_live-delivered_example :
    (decode_live tiny (encode_live tiny (seal_live tiny box foreign (1 ∷ []) (repeat 32))) >>= λ b.
    open_live tiny box b (1 ∷ []))
    ≡ ok foreign
open_live-delivered_example =
    open_live-delivered tiny box AnyText foreign (1 ∷ []) (repeat 32) tiny-IsCodec box-IsSealing
      foreign-IsRecord refl foreign_signed

open_live-resealed_example :
    (open_live tiny box
        (record { channel = 9 ∷ []; rotation = []; sealed = canonical_bytes tiny foreign })
        (1 ∷ [])
      ≡ ok foreign)
    ↔ ((decode_record tiny (canonical_bytes tiny foreign) ≡ ok foreign)
        × (foreign.channel ≡ 9 ∷ [])
        × (verify_signature tiny foreign ≡ ok tt))
open_live-resealed_example =
    open_live-resealed tiny box AnyText (9 ∷ []) [] (1 ∷ []) (canonical_bytes tiny foreign) foreign
      box-IsSealing

-- Invitations that are a network and an issuer, and links that are their ends.
abbrev letters : Invites
letters = record {
  Invite = Bytes × Bytes;
  Link = (Bytes × Bytes) × (Bytes × Bytes);
  network = λ a. a.0;
  issuer = λ a. a.1;
  verify_link = λ a. true;
  linked = λ a. a;
  encode_invite = λ a. a.0;
  decode_invite = λ b. none;
  encode_link = λ a. a.0.0;
  decode_link = λ b. none;
}

abbrev letter : DmInvite letters
letter = record { invite = (2 ∷ [], 20 ∷ []); link = ((1 ∷ [], 10 ∷ []), (2 ∷ [], 20 ∷ [])) }

letter_verifies : verify_from letters letter (10 ∷ []) (1 ∷ []) ≡ ok tt
unfolding verify_from cmp_bytes cmp_pair
letter_verifies = refl

-- Another member passes the letter on as its own.
verify_from_unique_example :
    (verify_from letters letter (11 ∷ []) (1 ∷ []) ≡ ok tt)
    ↔ (◌≡◌ {A = Bytes} (1 ∷ []) (1 ∷ []) × ◌≡◌ {A = Bytes} (10 ∷ []) (11 ∷ []))
verify_from_unique_example =
    verify_from_unique letters letter (10 ∷ []) (11 ∷ []) (1 ∷ []) (1 ∷ []) letter_verifies

-- A position of 1969 with the largest counter.
abbrev early : Cursor
early = record { hlc = record { wall_millis = negsuc 3999; counter = u32_max }; id = repeat 32 }

early_fits : fits_i64 (negsuc 3999) ≡ true
unfolding cmp_ℤ
early_fits = refl

from_token-to_token_example : from_token tiny (to_token tiny early) ≡ some early
from_token-to_token_example =
    from_token-to_token tiny early tiny-IsHexRead early_fits (omega arith) refl
