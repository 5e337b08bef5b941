-- ===== src/Platform.antt =====
-- What the protocol's crates give (`intranet_crypto`, `intranet_identity`): canonical encoding,
-- hashing and signatures. Their code is not in this repository, so they are a parameter.
pub mod Laws
use ko_ls.Base.{ℕ, Bool, Option, List}
use ko_ls.Base.Order.{Bytes}
use ko_ls.Base.Int.{ℤ}
use ko_ls.Base.Result.{Result}

-- `DecodeError`, its detail left out.
pub data DecodeError : Type 0 where
  malformed : DecodeError

-- A read takes a value off the front of the bytes that remain.
abbrev pub Reader : Type 0 → Type 0
Reader A = Bytes → Result DecodeError (A × Bytes)

pub record Platform : Type 1 where
  -- `Enc`: what each method appends. A string is its UTF-8 bytes; `option` and `seq` take what the
  -- closure writes for each element.
  pub domain : Bytes → Bytes
  pub u8 : ℕ → Bytes
  pub variant : ℕ → Bytes
  pub u32 : ℕ → Bytes
  pub u64 : ℕ → Bytes
  pub i64 : ℤ → Bytes
  pub bool : Bool → Bytes
  pub str : Bytes → Bytes
  pub bytes : Bytes → Bytes
  pub option : Option Bytes → Bytes
  pub seq : List Bytes → Bytes
  -- `Dec`
  pub read_domain : Bytes → Bytes → Result DecodeError Bytes
  pub read_fixed : ℕ → Reader Bytes
  pub read_u8 : Reader ℕ
  pub read_variant : Reader ℕ
  pub read_u32 : Reader ℕ
  pub read_u64 : Reader ℕ
  pub read_i64 : Reader ℤ
  pub read_bool : Reader Bool
  pub read_str : Reader Bytes
  pub read_bytes : Reader Bytes
  pub read_option : {A : Type 0} → Reader A → Reader (Option A)
  pub read_seq : {A : Type 0} → Reader A → Reader (List A)
  -- `to_hex`, `from_hex`
  pub to_hex : Bytes → Bytes
  pub from_hex : Bytes → Option Bytes
  -- `hash_bytes`, `VerifyingKey::from_bytes` as a test, `VerifyingKey::verify`
  pub hash_bytes : Bytes → Bytes
  pub is_key : Bytes → Bool
  pub verify : Bytes → Bytes → Bytes → Bool
  -- `PerNetworkIdentity`: a holder of a signing key
  pub Identity : Type 0
  pub identity_id : Identity → Bytes
  pub sign : Identity → Bytes → Bytes

-- `intranet_governance`: replayed states, the log behind them, and capabilities.
pub record Governance : Type 1 where
  pub State : Type 0
  pub Capability : Type 0
  pub LogEntry : Type 0
  pub Log : Type 0
  -- `Capability::extension`, `Capability::publish` of a `ContentType`, `Capability::ModerateContent`
  pub extension : Bytes → Capability
  pub publish : Bytes → Capability
  pub moderate_content : Capability
  pub identity_holds : State → Bytes → Capability → Bool
  pub is_member : State → Bytes → Bool
  -- `GovernanceLog::canonical_chain`, `GovernanceLog::get`, the field `parent` of an entry, `GovernanceState::replay`
  pub canonical_chain : Log → List Bytes
  pub entry_at : Log → Bytes → Option LogEntry
  pub parent : LogEntry → Option Bytes
  pub replay : List LogEntry → Option State
  -- `Capability::ApproveNode`, `RevokeNode`, `DefinePolicy`, `DefineGroup`, `manage_membership`
  pub approve_node : Capability
  pub revoke_node : Capability
  pub define_policy : Capability
  pub define_group : Capability
  pub manage_membership : Bytes → Capability
  -- Whether the group of this name holds `CapabilitySet::All`, if there is one; `GroupId::is_everyone`
  pub group_holds_all : State → Bytes → Option Bool
  pub is_everyone : Bytes → Bool
  -- `PartialEq` of `Capability`
  pub same_capability : Capability → Capability → Bool
  -- The field `policy` of a state, `NetworkPolicy::app_policy_int` and `app_policy_text`
  pub Policy : Type 0
  pub policy : State → Policy
  pub app_policy_int : Policy → Bytes → ℤ → ℤ
  pub app_policy_text : Policy → Bytes → Bytes → Bytes
  -- `GovernanceModel::MemberVote` of a policy, `AdmissionMode::AutoAdmit`
  pub is_member_vote : Policy → Bool
  pub AdmissionMode : Type 0
  pub InviteProvenance : Type 0
  pub is_auto_admit : AdmissionMode → Bool
  -- `MAX_BOOTSTRAP_RELAYS`, `MAX_RELAY_ADDRESS_BYTES`
  pub max_bootstrap_relays : ℕ
  pub max_relay_address_bytes : ℕ
  -- `EntryBody::AppEntry` of a namespace, kind, capability and payload, made and taken apart
  pub EntryBody : Type 0
  pub app_entry : Bytes → Bytes → Capability → Bytes → EntryBody
  pub as_app_entry : EntryBody → Option (Bytes × Bytes × Capability × Bytes)
  pub is_valid_app_entry_name : Bytes → Bytes → Bool
  -- The fields `author` and `body` of an entry of the log
  pub author : LogEntry → Bytes
  pub body : LogEntry → EntryBody

-- `intranet_storage`: chunked, sealed objects and the signed pointers that name them.
pub record Storage : Type 1 where
  pub Dek : Type 0
  pub ChunkSpec : Type 0
  pub Encoder : Type 0
  pub Object : Type 0
  pub Manifest : Type 0
  pub Pointer : Type 0
  pub State : Type 0
  pub Signer : Type 0
  pub signer_id : Signer → Bytes
  -- `AppendOnlyObject::new`, `extend` and `shared`, and `encode` of a whole object
  pub fresh : ChunkSpec → Encoder
  pub extend : Encoder → Bytes → Dek → Encoder
  pub shared : Encoder → Object
  pub encode : Bytes → Dek → ChunkSpec → Object
  -- `EncodedObject`'s `manifest`, `manifest_cid` and `new_chunks_since`, and `Manifest`'s `chunks`
  pub manifest : Object → Manifest
  pub manifest_cid : Object → Bytes
  pub new_chunks_since : Object → Manifest → List Bytes
  pub chunks : Manifest → List Bytes
  pub commitment : Dek → Bytes
  -- `MutablePointer::publish` and `update`; `none` where the storage refuses
  pub publish : Signer → Bytes → Bytes → Bytes → Bytes → State → Option Pointer
  pub update : Pointer → Signer → Bytes → State → Option Pointer
  pub pointer_id : Pointer → Bytes
  pub version : Pointer → ℕ

-- `keyed_hash`, `EpochKey` and `Dek` of the storage's sealing: a key of an epoch and a context, and
-- the sealing of one chunk, which opens to nothing under another key or if it was changed.
pub record Sealing : Type 1 where
  pub EpochKey : Type 0
  pub Dek : Type 0
  pub keyed_dek : EpochKey → Bytes → Dek
  pub seal_chunk : Dek → Bytes → Bytes
  pub open_chunk : Dek → Bytes → Option Bytes

-- Unicode's tables, over the code points of a text: NFKC of the crate `unicode_normalization`,
-- `str::to_lowercase`, and how many `graphemes` the crate `unicode_segmentation` finds.
pub record Unicode : Type 0 where
  pub nfkc : List ℕ → List ℕ
  pub to_lowercase : List ℕ → List ℕ
  pub grapheme_count : List ℕ → ℕ

-- `Invite` of `intranet_invite` with its `network` and `issuer`, and `CommonOwnershipProof` of
-- `intranet_identity`, which links an identity of one network to one of another; each has its codec,
-- and `verify` tells whether the proof holds.
pub record Invites : Type 1 where
  pub Invite : Type 0
  pub Link : Type 0
  pub network : Invite → Bytes
  pub issuer : Invite → Bytes
  pub verify_link : Link → Bool
  pub linked : Link → (Bytes × Bytes) × (Bytes × Bytes)
  pub encode_invite : Invite → Bytes
  pub decode_invite : Bytes → Option Invite
  pub encode_link : Link → Bytes
  pub decode_link : Bytes → Option Link
