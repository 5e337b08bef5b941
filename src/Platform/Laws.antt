-- ===== src/Platform/Laws.antt =====
-- What the program relies on of the protocol's crates, as hypotheses.
use ko_ls.Base.{
  ℕ, ◌+◌, ◌^◌, ◌≤◌, ◌<◌, Bool, true, ◌&&◌, ◌||◌, none, some, List, [], ◌∷◌, ◌++◌, map, length, All,
  leb, ◌≡◌, ◌↔◌,
}
use ko_ls.Base.Order.{Bytes}
use ko_ls.Base.Int.{ℤ, fits_i64, u32_max}
use ko_ls.Base.Result.{ok}
use ko_ls.Platform.{Platform, Governance, Storage, Sealing, Reader}

-- A digit of a hexadecimal text, in lower case.
unfoldable pub is_hex_digit : ℕ → Bool
is_hex_digit c = (leb b'0' c && leb c b'9') || (leb b'a' c && leb c b'f')

-- `to_hex` writes hexadecimal digits, and different bytes differently.
pub record IsHex (p : Platform) : Type 0 where
  pub digits : (a : Bytes) → All (λ c. is_hex_digit c ≡ true) (p.to_hex a)
  pub to_hex-injective : (a b : Bytes) → p.to_hex a ≡ p.to_hex b → a ≡ b

-- `from_hex` reads back what `to_hex` writes.
pub record IsHexRead (p : Platform) : Type 0 where
  pub from_hex-to_hex : (a : Bytes) → p.from_hex (p.to_hex a) ≡ some a

-- Capabilities of different names differ.
pub record IsExtending (g : Governance) : Type 0 where
  pub extension-injective : (a b : Bytes) → g.extension a ≡ g.extension b → a ≡ b

-- Pieces given to an encoder, one after the other.
unfoldable pub extend_all : (s : Storage) → s.Encoder → List Bytes → s.Dek → s.Encoder
extend_all s e [] d = e
extend_all s e (b ∷ bs) d = extend_all s (s.extend e b d) bs d

unfoldable pub concat : List Bytes → Bytes
concat [] = []
concat (b ∷ bs) = b ++ concat bs

-- An append-only encoder that was given something ends with the object that encoding all of the bytes at once gives.
pub record IsAppendOnly (s : Storage) : Type 0 where
  pub shared-extend_all :
      (spec : s.ChunkSpec) (first : Bytes) (rest : List Bytes) (d : s.Dek)
      → s.shared (extend_all s (s.fresh spec) (first ∷ rest) d)
        ≡ s.encode (concat (first ∷ rest)) d spec

-- A pointer starts at version 0, and an update is one version further.
pub record IsVersioned (s : Storage) : Type 0 where
  pub version-publish :
      (who : s.Signer) (i kind cid key : Bytes) (state : s.State) (q : s.Pointer)
      → s.publish who i kind cid key state ≡ some q
      → s.version q ≡ 0
  pub version-update :
      (before : s.Pointer) (who : s.Signer) (cid : Bytes) (state : s.State) (q : s.Pointer)
      → s.update before who cid state ≡ some q
      → s.version q ≡ s.version before + 1

-- Reading gives back what was written, and leaves what follows, for values of the types that the
-- program writes; `IsText` is that the bytes are valid UTF-8.
pub record IsCodec (p : Platform) (IsText : Bytes → Type 0) : Type 1 where
  pub read_domain-domain : (d rest : Bytes) → p.read_domain d (p.domain d ++ rest) ≡ ok rest
  pub read_fixed-append :
      (n : ℕ) (b rest : Bytes) → length b ≡ n → p.read_fixed n (b ++ rest) ≡ ok (b, rest)
  pub u8-byte : (n : ℕ) → n < 256 → p.u8 n ≡ n ∷ []
  pub read_u8-u8 : (n : ℕ) (rest : Bytes) → n < 256 → p.read_u8 (p.u8 n ++ rest) ≡ ok (n, rest)
  pub read_variant-variant :
      (n : ℕ) (rest : Bytes) → n < 256 → p.read_variant (p.variant n ++ rest) ≡ ok (n, rest)
  pub read_u32-u32 :
      (n : ℕ) (rest : Bytes) → n ≤ u32_max → p.read_u32 (p.u32 n ++ rest) ≡ ok (n, rest)
  pub read_u64-u64 :
      (n : ℕ) (rest : Bytes) → n < 2 ^ 64 → p.read_u64 (p.u64 n ++ rest) ≡ ok (n, rest)
  pub read_i64-i64 :
      (n : ℤ) (rest : Bytes) → fits_i64 n ≡ true → p.read_i64 (p.i64 n ++ rest) ≡ ok (n, rest)
  pub read_bool-bool : (b : Bool) (rest : Bytes) → p.read_bool (p.bool b ++ rest) ≡ ok (b, rest)
  pub read_str-str : (b rest : Bytes) → IsText b → p.read_str (p.str b ++ rest) ≡ ok (b, rest)
  pub read_option-none :
      {A : Type 0} (read : Reader A) (rest : Bytes)
      → p.read_option read (p.option none ++ rest) ≡ ok (none, rest)
  pub read_option-some :
      {A : Type 0} (read : Reader A) (b rest : Bytes) (a : A)
      → ((more : Bytes) → read (b ++ more) ≡ ok (a, more))
      → p.read_option read (p.option (some b) ++ rest) ≡ ok (some a, rest)
  pub read_seq-seq :
      {A : Type 0} (read : Reader A) (write : A → Bytes) (xs : List A) (rest : Bytes)
      → All (λ a. (more : Bytes) → read (write a ++ more) ≡ ok (a, more)) xs
      → p.read_seq read (p.seq (map write xs) ++ rest) ≡ ok (xs, rest)
  pub read_bytes-bytes : (b rest : Bytes) → p.read_bytes (p.bytes b ++ rest) ≡ ok (b, rest)
  pub bytes-cons : (b : Bytes) → (first : ℕ) × (rest : Bytes) × (p.bytes b ≡ first ∷ rest)

-- A length-prefixed read takes something off.
pub record IsConsuming (p : Platform) : Type 0 where
  pub read_bytes-shorter :
      (input b rest : Bytes) → p.read_bytes input ≡ ok (b, rest) → length rest < length input

-- What a holder of a key signs verifies under the key.
pub record IsSigning (p : Platform) : Type 0 where
  pub verify-sign :
      (i : p.Identity) (payload : Bytes)
      → p.verify (p.identity_id i) payload (p.sign i payload) ≡ true

-- A sealed chunk opens under its key.
pub record IsSealing (s : Sealing) : Type 0 where
  pub open_chunk-seal_chunk :
      (d : s.Dek) (text : Bytes) → s.open_chunk d (s.seal_chunk d text) ≡ some text

-- What reads an application entry finds what made it, and equality of capabilities is equality.
pub record IsEntryLog (g : Governance) : Type 0 where
  pub as_app_entry-app_entry :
      (namespace kind : Bytes) (c : g.Capability) (payload : Bytes)
      → g.as_app_entry (g.app_entry namespace kind c payload) ≡ some (namespace, kind, c, payload)
  pub same_capability-iff : (a b : g.Capability) → (g.same_capability a b ≡ true) ↔ (a ≡ b)
