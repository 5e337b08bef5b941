-- ===== src/Examples/Values.antt =====
-- A small governance and storage, and some records on them.
use ko_ls.Base.{
  In, inl, inr, ℕ, ◌+◌, Bool, true, false, ◌&&◌, Option, none, some, List, [], ◌∷◌, ◌++◌, map, any,
  if◌then◌else◌, ◌≡◌, refl, ap, ◌∙◌, sym,
}
use ko_ls.Base.Order.{Bytes, bytes_ord, nat_ord, cmp_bytes, ◌==◌, ==_iff}
use ko_ls.Base.Int.{pos}
use ko_ls.Base.Text.{codes}
use ko_ls.Base.BTreeMap.{get}
use ko_ls.Core.Hlc.{Hlc, encode_hlc}
use ko_ls.Core.Record.{Record, RecordBody, id, canonical_bytes, payload, encode_body, tag}
use ko_ls.Core.Permissions.{Placement, Authority}
use ko_ls.Core.Limits.{ReaderLimits}
use ko_ls.Core.Limits.Greedy.{IsDistinct, IsFresh}
use ko_ls.Core.View.Admission.{IsCollisionFree}
use ko_ls.Platform.{Governance, Storage}
use ko_ls.Platform.Laws.{IsExtending}
use ko_ls.Examples.Tiny.{tiny}

-- A state is its grants; an entry of the log adds one to those of its parent.
abbrev pub Grant : Type 0
Grant = Bytes × Bytes

abbrev pub grants : Governance
grants = record {
  State = List Grant;
  Capability = Bytes;
  LogEntry = Option Bytes × Grant;
  Log = List (Bytes × (Option Bytes × Grant));
  extension = λ b. 1 ∷ b;
  publish = λ b. 2 ∷ b;
  moderate_content = 3 ∷ [];
  identity_holds = λ state i c. any (λ e. (e.0 == i) && (e.1 == c)) state;
  is_member = λ state i. any (λ e. e.0 == i) state;
  canonical_chain = λ log. map (λ e. e.0) log;
  entry_at = λ log h. get h log;
  parent = λ e. e.0;
  replay = λ es. some (map (λ e. e.1) es);
  approve_node = 4 ∷ [];
  revoke_node = 5 ∷ [];
  define_policy = 6 ∷ [];
  define_group = 7 ∷ [];
  manage_membership = λ b. 8 ∷ b;
  group_holds_all = λ state group. some false;
  is_everyone = λ group. group == [];
  same_capability = λ a b. a == b;
  Policy = Unit;
  policy = λ state. tt;
  app_policy_int = λ q key default. default;
  app_policy_text = λ q key default. default;
  is_member_vote = λ q. false;
  AdmissionMode = Bool;
  InviteProvenance = Unit;
  is_auto_admit = λ mode. mode;
  max_bootstrap_relays = 4;
  max_relay_address_bytes = 100;
  EntryBody = Bytes × Bytes × Bytes × Bytes;
  app_entry = λ namespace kind c payload. (namespace, kind, c, payload);
  as_app_entry = λ body. some body;
  is_valid_app_entry_name = λ namespace kind. true;
  author = λ e. e.1.0;
  body = λ e. (codes "chat", codes "member-name", 1 ∷ codes "chat:set-name:*", e.1.1);
}

pub grants-IsExtending : IsExtending grants
grants-IsExtending = record { extension-injective = λ a b e. cc e }

-- Objects are the bytes with their key; a pointer is its identifier, version and target.
abbrev pub shelf : Storage
shelf = record {
  Dek = ℕ;
  ChunkSpec = ℕ;
  Encoder = ℕ × Bytes × ℕ;
  Object = ℕ × Bytes × ℕ;
  Manifest = Bytes;
  Pointer = Bytes × ℕ × Bytes;
  State = Bool;
  Signer = Bytes;
  signer_id = λ i. i;
  fresh = λ spec. (spec, [], 0);
  extend = λ e b d. (e.0, e.1 ++ b, d);
  shared = λ e. e;
  encode = λ b d spec. (spec, b, d);
  manifest = λ o. o.1;
  manifest_cid = λ o. o.1;
  new_chunks_since = λ o before. if o.1 == before then [] else o.1 ∷ [];
  chunks = λ m. m ∷ [];
  commitment = λ d. d ∷ [];
  publish = λ who i kind cid key state. if state then some (i, 0, cid) else none;
  update = λ q who cid state. if state then some (q.0, q.1 + 1, cid) else none;
  pointer_id = λ q. q.0;
  version = λ q. q.1;
}

abbrev pub room : Placement
room = record { channel = 1 ∷ []; category = none }

abbrev pub alice : Bytes
alice = 10 ∷ []

abbrev pub bob : Bytes
bob = 11 ∷ []

abbrev pub at : ℕ → Hlc
at millis = record { wall_millis = pos millis; counter = 0 }

abbrev pub signed_by : Bytes → ℕ → RecordBody → Record
signed_by who millis body = record {
  channel = 1 ∷ [];
  author = who;
  device = who;
  hlc = at millis;
  body = body;
  signature = who ++ who;
}

abbrev pub hello : Record
hello = signed_by alice 1000 (RecordBody.message (codes "hi") none [])

abbrev pub revised : Record
revised = signed_by alice 3000 (RecordBody.edit (id tiny hello) (codes "hello"))

abbrev pub answer : Record
answer = signed_by bob 2000 (RecordBody.message (codes "yo") (some (id tiny hello)) [])

abbrev pub script : List Record
script = hello ∷ answer ∷ revised ∷ []

abbrev pub limits : ReaderLimits
limits = record {
  message_rate_per_minute = pos 1;
  reaction_rate_per_minute = pos 0;
  message_max_bytes = 100;
  max_future_skew_millis = pos 60000;
  slowmode_seconds = 0;
}

-- Everybody is a member and may post.
abbrev pub anybody : Authority
anybody = record {
  is_member = λ i. true;
  may_post = λ i place. true;
  may_moderate_at = λ i place head. false;
  may_moderate_now = λ i place. false;
}

pub script-IsDistinct : IsDistinct tiny script
unfolding id canonical_bytes payload encode_body encode_hlc tag cmp_bytes
script-IsDistinct = ((refl, (refl, tt)), ((refl, tt), (tt, tt)))

apart :
    (r : Record) (rs : List Record) (s : Record)
    → IsFresh tiny (id tiny r) rs
    → In s rs
    → id tiny r ≡ id tiny s
    → ⊥
apart r [] s f i e = i
apart r (x ∷ rs) s f (inl same) e =
    let differ : (id tiny r == id tiny s) ≡ false = rw same f.0 in
    cc (differ, (==_iff (id tiny r) (id tiny s)).1 e)
apart r (x ∷ rs) s f (inr i) e = apart r rs s f.1 i e

-- Records with different identifiers collide nowhere.
pub IsCollisionFree-of : (rs : List Record) → IsDistinct tiny rs → IsCollisionFree tiny rs
IsCollisionFree-of [] d r s i j e = absurd i
IsCollisionFree-of (x ∷ rs) d r s (inl f) (inl g) e = f ∙ sym g
IsCollisionFree-of (x ∷ rs) d r s (inl f) (inr j) e =
    absurd (apart x rs s d.0 j (ap (id tiny) (sym f) ∙ e))
IsCollisionFree-of (x ∷ rs) d r s (inr i) (inl g) e =
    absurd (apart x rs r d.0 i (ap (id tiny) (sym g) ∙ sym e))
IsCollisionFree-of (x ∷ rs) d r s (inr i) (inr j) e = IsCollisionFree-of rs d.1 r s i j e
