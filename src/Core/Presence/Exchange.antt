-- ===== src/Core/Presence/Exchange.antt =====
-- What a beat's sender says, its receiver hears.
use mathlib.Core.List.{append-nil}
use ko_ls.Base.{true, some, [], length, ◌≡◌, ◌↔◌, ◌<◌, refl, sym, ap, ◌∙◌, arith}
use ko_ls.Base.Order.{Bytes, bytes_ord, cmp_bytes}
use ko_ls.Base.Text.{codes}
use ko_ls.Base.Int.{ℤ, fits_i64}
use ko_ls.Base.Result.{ok}
use ko_ls.Platform.{Platform, Sealing}
use ko_ls.Platform.Laws.{IsCodec, IsSigning, IsSealing}
use ko_ls.Core.Record.{Hash}
use ko_ls.Core.Presence.{
  Beat, Presence, show, invisible, code, from_code, beat_name, presence_name, from_name,
  beat_payload, plaintext, presence_key, seal_beat, read_beat, open_beat,
}

from_name-presence_name : (q : Presence) → from_name (presence_name q) ≡ some q
unfolding from_name presence_name beat_name cmp_bytes
from_name-presence_name (show Beat.here) = refl
from_name-presence_name (show Beat.idle) = refl
from_name-presence_name (show Beat.busy) = refl
from_name-presence_name invisible = refl

name_of : (name : Bytes) (q : Presence) → from_name name ≡ some q → name ≡ presence_name q
unfolding from_name presence_name beat_name
name_of name q h = ground (
  arith,
  bytes_ord.same_eq name (codes "here"),
  bytes_ord.same_eq name (codes "idle"),
  bytes_ord.same_eq name (codes "busy"),
  bytes_ord.same_eq name (codes "invisible"),
)

-- A name reads as a presence exactly if it is the presence's name.
from_name_lem : (name : Bytes) (q : Presence) → (from_name name ≡ some q) ↔ (name ≡ presence_name q)
from_name_lem name q = (name_of name q, λ e. rw e (from_name-presence_name q))

from_code-code : (b : Beat) → from_code (code b) ≡ some b
unfolding from_code code
from_code-code Beat.here = refl
from_code-code Beat.idle = refl
from_code-code Beat.busy = refl

code-lt : (b : Beat) → code b < 256
unfolding code
code-lt b = ground arith

module _ (p : Platform) (IsText : Bytes → Type 0) where
  -- An identity whose key is one, of the sizes of their types.
  pub record IsHolder (i : p.Identity) : Type 0 where
    pub id_len : length (p.identity_id i) ≡ 32
    pub id_key : p.is_key (p.identity_id i) ≡ true
    pub sign_len : (text : Bytes) → length (p.sign i text) ≡ 64

  read_beat-plaintext :
      (s : Sealing) (who : p.Identity) (state : Beat) (at : ℤ)
      → IsCodec p IsText
      → IsSigning p
      → IsHolder who
      → fits_i64 at ≡ true
      → read_beat p s (plaintext p s who state at)
        ≡ ok (record { who = p.identity_id who; state = state; at = at })
  unfolding read_beat plaintext
  read_beat-plaintext s who state at c law h fits =
      let text = beat_payload p s (p.identity_id who) state at in
      let last : p.read_fixed 64 (p.sign who text) ≡ ok (p.sign who text, []) =
        ap (p.read_fixed 64) (sym (append-nil (p.sign who text)))
        ∙ c.read_fixed-append 64 (p.sign who text) [] (h.sign_len text) in
      rw
        (
          c.read_domain-domain,
          c.read_fixed-append 32 (p.identity_id who) _ h.id_len,
          h.id_key,
          c.read_u8-u8 (code state) _ (code-lt state),
          from_code-code state,
          c.read_i64-i64 at _ fits,
          last,
          law.verify-sign who text,
        )
        refl

  -- Under the laws of the codec, of signatures and of the sealing, the beat that a holder of a key
  -- seals for an epoch opens in that epoch, as that holder's and with its state and time.
  pub open_beat-seal_beat :
      (s : Sealing) (who : p.Identity) (state : Beat) (at : ℤ) (epoch : s.EpochKey)
      (rotation : Hash)
      → IsCodec p IsText
      → IsSigning p
      → IsSealing s
      → IsHolder who
      → fits_i64 at ≡ true
      → open_beat p s (seal_beat p s who state at epoch rotation) epoch
        ≡ ok (record { who = p.identity_id who; state = state; at = at })
  unfolding open_beat seal_beat
  open_beat-seal_beat s who state at epoch rotation c law sealing h fits =
      rw
        (sealing.open_chunk-seal_chunk (presence_key p s epoch rotation)
          (plaintext p s who state at))
        (read_beat-plaintext s who state at c law h fits)
