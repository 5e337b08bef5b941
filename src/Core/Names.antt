-- ===== src/Core/Names.antt =====
-- Display names: crates/kols-core/src/names.rs. A claimed name is its UTF-8 bytes; a key is its code
-- points.
pub mod Holders
use ko_ls.Base.{
  ℕ, ◌+◌, ◌-◌, ◌*◌, Bool, true, false, ◌&&◌, ◌||◌, not, Option, none, some, List, [], ◌∷◌, ◌++◌,
  all, length, filter, ltb, leb, if◌then◌else◌,
}
use ko_ls.Base.Order.{Bytes, bytes_ord, nat_ord, ◌==◌}
use ko_ls.Base.Text.{codes}
use ko_ls.Base.Result.{Result, ok, err, ◌>>=◌, ◌>>◌, guard}
use ko_ls.Base.BTreeMap.{BTreeMap, get, insert}
use ko_ls.Platform.{Platform, Governance, Unicode}
use ko_ls.Core.Errors.{CoreError}
use ko_ls.Core.Record.{IdentityId}
use ko_ls.Core.Record.Decode.{lift}
use ko_ls.Core.Channel.Admission.{chat_namespace}

abbrev pub name_claim_domain : Bytes
name_claim_domain = codes "intranet.chat-name-claim.v1"

abbrev pub name_claim_kind : Bytes
name_claim_kind = codes "member-name"

abbrev pub max_name_bytes : ℕ
max_name_bytes = 64

abbrev pub max_name_graphemes : ℕ
max_name_graphemes = 32

pub data NameRefusal : Type 0 where
  invisible : ℕ → NameRefusal
  empty : NameRefusal
  too_many_bytes : ℕ → NameRefusal
  too_many_graphemes : ℕ → NameRefusal
  taken : IdentityId → NameRefusal

abbrev within : ℕ → ℕ → ℕ → Bool
within low high c = leb low c && leb c high

-- What the first byte of a code point contributes.
abbrev lead : ℕ → ℕ
lead b =
    if ltb b 0xC0
    then b
    else if ltb b 0xE0
    then b - 0xC0
    else if ltb b 0xF0
    then b - 0xE0
    else b - 0xF0

-- `str::chars`, where `c` is the code point begun.
chars_after : ℕ → Bytes → List ℕ
chars_after c [] = c ∷ []
chars_after c (b ∷ rest) = elim (within 0x80 0xBF b) [
  | true ↦ chars_after (c * 64 + (b - 0x80)) rest
  | false ↦ c ∷ chars_after (lead b) rest
]

unfoldable pub chars : Bytes → List ℕ
unfolding chars_after
chars [] = []
chars (b ∷ rest) = chars_after (lead b) rest

-- `char::is_control` and `char::is_whitespace`
abbrev is_control : ℕ → Bool
is_control c = ltb c 0x20 || within 0x7F 0x9F c

abbrev pub is_whitespace : ℕ → Bool
is_whitespace c =
    within 0x09 0x0D c
    || ((c == 0x20)
        || ((c == 0x85)
            || ((c == 0xA0)
                || ((c == 0x1680)
                    || (within 0x2000 0x200A c
                        || ((c == 0x2028)
                            || ((c == 0x2029)
                                || ((c == 0x202F) || ((c == 0x205F) || (c == 0x3000))))))))))

-- `trim().is_empty()`
unfoldable pub is_blank : Bytes → Bool
unfolding chars
is_blank text = all is_whitespace (chars text)

unfoldable pub is_invisible : ℕ → Bool
is_invisible c =
    is_control c
    || ((c == 0x00AD)
        || (within 0x0600 0x0605 c
            || ((c == 0x061C)
                || ((c == 0x06DD)
                    || ((c == 0x070F)
                        || ((c == 0x08E2)
                            || ((c == 0x180E)
                                || (within 0x200B 0x200F c
                                    || (within 0x202A 0x202E c
                                        || (within 0x2060 0x2064 c
                                            || (within 0x2066 0x206F c
                                                || ((c == 0xFEFF)
                                                    || (within 0xFFF9 0xFFFB c
                                                        || ((c == 0x110BD)
                                                            || (within 0x1D173 0x1D17A c
                                                            || ((c == 0xE0001)
                                                            || (within 0xE0020 0xE007F c
                                                            || (within 0xE000 0xF8FF c
                                                            || (within 0xF0000 0xFFFFD c
                                                            || within 0x100000 0x10FFFD
                                                            c)))))))))))))))))))

unfoldable pub first_invisible : List ℕ → Option ℕ
unfolding is_invisible
first_invisible [] = none
first_invisible (c ∷ cs) =
    let later = first_invisible cs in if is_invisible c then some c else later

abbrev onto_first : ℕ → List (List ℕ) → List (List ℕ)
onto_first c [] = (c ∷ []) ∷ []
onto_first c (w ∷ ws) = (c ∷ w) ∷ ws

split : List ℕ → List (List ℕ)
split [] = [] ∷ []
split (c ∷ cs) = let rest = split cs in if is_whitespace c then [] ∷ rest else onto_first c rest

abbrev is_nonempty : List ℕ → Bool
is_nonempty [] = false
is_nonempty (c ∷ cs) = true

join : List (List ℕ) → List ℕ
join [] = []
join (w ∷ []) = w
join (w ∷ v ∷ ws) = w ++ 0x20 ∷ join (v ∷ ws)

-- `split_whitespace().collect().join(" ")`
unfoldable pub collapse : List ℕ → List ℕ
unfolding split join
collapse cs = join (filter is_nonempty (split cs))

pub record NameClaim : Type 0 where
  pub name : Bytes

pub record Names : Type 0 where
  pub by_key : BTreeMap (List ℕ) IdentityId
  pub current : BTreeMap IdentityId Bytes

-- `Names::new`
abbrev pub no_names : Names
no_names = record { by_key = []; current = [] }

module _ (u : Unicode) where
  unfoldable pub name_key : Bytes → Result NameRefusal (List ℕ)
  unfolding chars first_invisible collapse
  name_key claimed = do
    guard (leb (length claimed) max_name_bytes) (too_many_bytes (length claimed))
    elim (first_invisible (chars claimed)) [ some c ↦ err (invisible c) | none ↦ ok tt ]
    let key = u.to_lowercase (collapse (u.nfkc (chars claimed)))
    guard (is_nonempty key) empty
    guard (leb (u.grapheme_count key) max_name_graphemes)
        (too_many_graphemes (u.grapheme_count key))
    ok key

  -- `NameClaim::new`
  unfoldable pub claim : Bytes → Result NameRefusal NameClaim
  unfolding name_key
  claim name = do key ← name_key name; ok (record { name = name })

  -- The arm `Some(holder) if holder != author`.
  abbrev pub held_by_other : IdentityId → Option IdentityId → Option IdentityId
  held_by_other author none = none
  held_by_other author (some holder) = if holder == author then none else some holder

  -- `Names::apply`: whether the claim stood, and the names after it.
  unfoldable pub apply : IdentityId → NameClaim → Names → Bool × Names
  unfolding name_key
  apply author c names = elim (name_key c.name) [
    | err why ↦ (false, names)
    | ok key ↦ elim (held_by_other author (get key names.by_key)) [
      | some holder ↦ (false, names)
      | none ↦ (
        true,
        record {
          by_key = insert key author names.by_key;
          current = insert author c.name names.current;
        },
      )
    ]
  ]

  abbrev unless_taken : Option IdentityId → Result NameRefusal (Unit {0})
  unless_taken none = ok tt
  unless_taken (some holder) = err (taken holder)

  -- `Names::claimable`
  unfoldable pub claimable : IdentityId → Bytes → Names → Result NameRefusal (Unit {0})
  unfolding name_key
  claimable author name names = do
    key ← name_key name
    unless_taken (held_by_other author (get key names.by_key))

-- `Names::of`
unfoldable pub name_of : IdentityId → Names → Option Bytes
name_of i names = get i names.current

module _ (p : Platform) (g : Governance) where
  -- `NameClaim::encode` and `NameClaim::decode_payload`
  unfoldable pub encode_claim : NameClaim → Bytes
  encode_claim c = p.domain name_claim_domain ++ p.str c.name

  unfoldable pub decode_claim : Bytes → Result CoreError NameClaim
  decode_claim payload = do
    in_name ← lift (p.read_domain name_claim_domain payload)
    (name, rest) ← lift (p.read_str in_name)
    ok (record { name = name })

  -- `NameClaim::required`
  abbrev pub required_claim : g.Capability
  required_claim = g.extension (codes "chat:set-name:*")

  -- `NameClaim::to_app_entry`
  unfoldable pub claim_entry : NameClaim → g.EntryBody
  unfolding encode_claim
  claim_entry c = g.app_entry chat_namespace name_claim_kind required_claim (encode_claim c)

  -- `NameClaim::read`
  unfoldable pub read_claim : g.EntryBody → Option NameClaim
  unfolding decode_claim
  read_claim body = elim (g.as_app_entry body) [
    | none ↦ none
    | some (namespace, kind, declared, payload) ↦
        if (namespace == chat_namespace)
          && ((kind == name_claim_kind) && g.same_capability declared required_claim)
        then (elim (decode_claim payload) [ err why ↦ none | ok c ↦ some c ])
        else none
  ]

  -- One round of the loop of `replay_names`.
  unfoldable pub replay_name : Unicode → g.State → Names → g.LogEntry → Names
  unfolding read_claim apply
  replay_name u state names entry = elim (read_claim (g.body entry)) [
    | none ↦ names
    | some c ↦
        if g.identity_holds state (g.author entry) required_claim
        then (apply u (g.author entry) c names).1
        else names
  ]

  unfoldable pub replay_names : Unicode → g.State → Names → List g.LogEntry → Names
  unfolding replay_name
  replay_names u state names [] = names
  replay_names u state names (e ∷ es) = replay_names u state (replay_name u state names e) es
