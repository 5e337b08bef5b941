-- ===== src/Core/Errors.antt =====
-- `CoreError` of crates/kols-core/src/lib.rs.
use ko_ls.Base.{ℕ}
use ko_ls.Base.Order.{Bytes}
use ko_ls.Platform.{DecodeError}
use ko_ls.Core.Hlc.{Hlc}

pub data CoreError : Type 0 where
  decode : DecodeError → CoreError
  bad_signature : CoreError
  channel_kind_mismatch : Bytes → Bytes → CoreError
  unknown_channel_field : Bytes → ℕ → CoreError
  subject_mismatch : Bytes → CoreError
  unknown_kind : ℕ → CoreError
  non_monotonic_clock : Hlc → Hlc → CoreError
  unlinked_invite : CoreError
  storage : CoreError
  too_large : Bytes → ℕ → ℕ → CoreError
