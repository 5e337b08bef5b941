-- ===== src/Core/Presence.antt =====
-- Presence beats: crates/kols-core/src/presence.rs.
pub mod Exchange
use ko_ls.Base.{ℕ, Bool, ◌&&◌, Option, none, some, List, [], ◌∷◌, ◌++◌, if◌then◌else◌}
use ko_ls.Base.Order.{Bytes, bytes_ord, nat_ord, ◌==◌, ◌≺◌}
use ko_ls.Base.Text.{codes}
use ko_ls.Base.Int.{ℤ, pos, int_ord, leb_ℤ, saturating_sub}
use ko_ls.Base.Result.{Result, ok, err, ◌>>=◌, ◌>>◌, guard, map_err, ok_or}
use ko_ls.Platform.{Platform, DecodeError, Sealing}
use ko_ls.Core.Errors.{CoreError, bad_signature}
use ko_ls.Core.Record.{IdentityId, Hash}
use ko_ls.Core.Record.Decode.{lift, finish, read_key}

abbrev pub fresh_millis : ℤ
fresh_millis = pos 90000

pub data Beat : Type 0 where
  here idle busy : Beat

-- `Beat::code` and `Beat::from_code`
unfoldable pub code : Beat → ℕ
code Beat.here = 1
code Beat.idle = 2
code Beat.busy = 3

unfoldable pub from_code : ℕ → Option Beat
from_code c =
    if c == 1
    then some Beat.here
    else if c == 2
    then some Beat.idle
    else if c == 3
    then some Beat.busy
    else none

-- `Beat::name`
unfoldable pub beat_name : Beat → Bytes
beat_name Beat.here = codes "here"
beat_name Beat.idle = codes "idle"
beat_name Beat.busy = codes "busy"

pub data Presence : Type 0 where
  show : Beat → Presence
  invisible : Presence

unfoldable pub to_beat : Presence → Option Beat
to_beat (show b) = some b
to_beat invisible = none

-- `Presence::name` and `Presence::from_name`
unfoldable pub presence_name : Presence → Bytes
unfolding beat_name
presence_name (show b) = beat_name b
presence_name invisible = codes "invisible"

unfoldable pub from_name : Bytes → Option Presence
from_name name =
    if name == codes "here"
    then some (show Beat.here)
    else if name == codes "idle"
    then some (show Beat.idle)
    else if name == codes "busy"
    then some (show Beat.busy)
    else if name == codes "invisible"
    then some invisible
    else none

pub record PresenceBeat : Type 0 where
  pub who : IdentityId
  pub state : Beat
  pub at : ℤ

pub record SealedBeat : Type 0 where
  pub rotation : Hash
  pub sealed : Bytes

-- `PresenceBeat::fresh_at`
unfoldable pub fresh_at : ℤ → ℤ → Bool
fresh_at heard_at now = leb_ℤ heard_at now && (saturating_sub now heard_at ≺ fresh_millis)

module _ (p : Platform) (s : Sealing) where
  -- `PresenceBeat::payload`
  unfoldable pub beat_payload : IdentityId → Beat → ℤ → Bytes
  unfolding code
  beat_payload who state at =
      p.domain (codes "intranet.chat-presence-payload.v1")
      ++ (who ++ (p.u8 (code state) ++ p.i64 at))

  unfoldable pub presence_key : s.EpochKey → Hash → s.Dek
  presence_key epoch rotation =
      s.keyed_dek epoch (p.domain (codes "intranet.chat-presence-key.v1") ++ rotation)

  -- What `PresenceBeat::seal` seals: the beat, then its signature.
  unfoldable pub plaintext : p.Identity → Beat → ℤ → Bytes
  unfolding beat_payload
  plaintext identity state at =
      p.domain (codes "intranet.chat-presence.v1")
      ++ (p.identity_id identity
          ++ (p.u8 (code state)
              ++ (p.i64 at ++ p.sign identity (beat_payload (p.identity_id identity) state at))))

  -- `PresenceBeat::seal`
  unfoldable pub seal_beat : p.Identity → Beat → ℤ → s.EpochKey → Hash → SealedBeat
  unfolding plaintext presence_key
  seal_beat identity state at epoch rotation = record {
    rotation = rotation;
    sealed = s.seal_chunk (presence_key epoch rotation) (plaintext identity state at);
  }

  -- The part of `SealedBeat::open` behind the decryption.
  unfoldable pub read_beat : Bytes → Result CoreError PresenceBeat
  unfolding from_code beat_payload
  read_beat input = do
    in_who ← lift (p.read_domain (codes "intranet.chat-presence.v1") input)
    (who, in_state) ← read_key p in_who
    (c, in_at) ← lift (p.read_u8 in_state)
    state ← ok_or (from_code c) bad_signature
    (at, in_signature) ← lift (p.read_i64 in_at)
    (signature, rest) ← lift (p.read_fixed 64 in_signature)
    finish rest
    guard (p.verify who (beat_payload who state at) signature) bad_signature
    ok (record { who = who; state = state; at = at })

  -- `SealedBeat::open`
  unfoldable pub open_beat : SealedBeat → s.EpochKey → Result CoreError PresenceBeat
  unfolding presence_key read_beat
  open_beat b epoch =
      ok_or (s.open_chunk (presence_key epoch b.rotation) b.sealed) bad_signature >>= read_beat
