-- ===== src/Core/Permissions/Heads.antt =====
-- Judging at a cited head: the walk to the first entry, and the cache of replays.
use mathlib.Core.List.{reverse, append-nil, append_assoc}
use ko_ls.Base.{
  ℕ, zero, suc, ◌≤◌, Bool, Option, none, some, List, [], ◌∷◌, ◌++◌, length, ◌≡◌, refl, arith,
  Option-cases, inl, inr, ap, ◌∙◌,
}
use ko_ls.Base.Order.{bytes_ord}
use ko_ls.Base.BTreeMap.{get}
use ko_ls.Base.BTreeMap.Laws.{get-insert}
use ko_ls.Platform.{Platform, Governance}
use ko_ls.Core.Record.{Hash}
use ko_ls.Core.Permissions.{
  arrived, missing, climb, chain_to, replayed, is_some_and, Cache, state_at,
}

module _ (p : Platform) (g : Governance) (log : g.Log) where
  -- The entries from a head back to the first one, newest first.
  pub data Ancestry : Option Hash → List g.LogEntry → Type 0 where
    origin : Ancestry none []
    link :
        {h : Hash} {e : g.LogEntry} {es : List g.LogEntry}
        → g.entry_at log h ≡ some e
        → Ancestry (g.parent e) es
        → Ancestry (some h) (e ∷ es)

  -- The way back from a head meets an entry that the log lacks, after so many steps.
  pub data Broken : Option Hash → ℕ → Type 0 where
    lost : {h : Hash} → g.entry_at log h ≡ none → Broken (some h) 1
    further :
        {h : Hash} {e : g.LogEntry} {n : ℕ}
        → g.entry_at log h ≡ some e
        → Broken (g.parent e) n
        → Broken (some h) (suc n)

module _ (p : Platform) (g : Governance) (log : g.Log) where
  climb-Ancestry :
      (fuel : ℕ) (head : Option Hash) (chain es : List g.LogEntry)
      → Ancestry p g log head es
      → length es ≤ fuel
      → climb p g fuel log head chain ≡ arrived (chain ++ es)
  unfolding climb
  climb-Ancestry fuel head chain es origin h = rw append-nil
  climb-Ancestry zero head chain es (link e a) h = absurd (omega arith)
  climb-Ancestry (suc fuel) head chain (e ∷ es) (link found a) h =
      rw (found, climb)
        (climb-Ancestry fuel (g.parent e) (chain ++ e ∷ []) es a (omega arith)
          ∙ ap arrived (append_assoc chain (e ∷ []) es))

  climb-Broken :
      (fuel n : ℕ) (head : Option Hash) (chain : List g.LogEntry)
      → Broken p g log head n
      → n ≤ fuel
      → climb p g fuel log head chain ≡ missing
  unfolding climb
  climb-Broken zero n head chain (lost e) h = absurd (omega arith)
  climb-Broken (suc fuel) n head chain (lost e) h = rw (e, climb) refl
  climb-Broken zero n head chain (further e b) h = absurd (omega arith)
  climb-Broken (suc fuel) (suc n) head chain (further {e = entry} found b) h =
      rw (found, climb) (climb-Broken fuel n (g.parent entry) (chain ++ entry ∷ []) b (omega arith))

  -- With fuel for the entries behind the head, `chain_to` returns them all, oldest first.
  pub chain_to-Ancestry :
      (fuel : ℕ) (head : Hash) (es : List g.LogEntry)
      → Ancestry p g log (some head) es
      → length es ≤ fuel
      → chain_to p g fuel log head ≡ arrived (reverse es)
  unfolding chain_to
  chain_to-Ancestry fuel head es a h = rw (climb-Ancestry fuel (some head) [] es a h, chain_to) refl

  -- With fuel for the steps to an entry that the log lacks, `chain_to` reports it missing.
  pub chain_to-Broken :
      (fuel n : ℕ) (head : Hash)
      → Broken p g log (some head) n
      → n ≤ fuel
      → chain_to p g fuel log head ≡ missing
  unfolding chain_to
  chain_to-Broken fuel n head b h = rw (climb-Broken fuel n (some head) [] b h, chain_to) refl

module _ (p : Platform) (g : Governance) (fuel : ℕ) (log : g.Log) where
  -- Each entry of the cache is the replay of its head.
  abbrev pub IsCoherent : Cache p g → Type 0
  IsCoherent cache =
      (h : Hash) (known : Option g.State)
      → get h cache ≡ some known
      → known ≡ replayed p g fuel log h

  state_at-answer :
      (cache : Cache p g) (head : Hash) (ask : g.State → Bool)
      → IsCoherent cache
      → (state_at p g fuel log cache head ask).0 ≡ is_some_and p g (replayed p g fuel log head) ask
  unfolding state_at
  state_at-answer cache head ask c = elim (Option-cases (get head cache)) [
    | inl e ↦ ground arith
    | inr (known, e) ↦ ground (arith, c head known e)
  ]

  state_at-IsCoherent :
      (cache : Cache p g) (head : Hash) (ask : g.State → Bool)
      → IsCoherent cache
      → IsCoherent (state_at p g fuel log cache head ask).1
  unfolding state_at
  state_at-IsCoherent cache head ask c h known = elim (Option-cases (get head cache)) [
    | inl e ↦ ground (
      arith,
      c h known,
      get-insert h head (replayed p g fuel log head) cache,
      bytes_ord.same_eq h head,
    )
    | inr (old, e) ↦ ground (arith, c h known)
  ]

  -- Memoising changes no answer: from a coherent cache, an answer is that of the replay to the
  -- cited head, and the cache stays coherent.
  pub state_at_lem :
      (cache : Cache p g) (head : Hash) (ask : g.State → Bool)
      → IsCoherent cache
      → ((state_at p g fuel log cache head ask).0
          ≡ is_some_and p g (replayed p g fuel log head) ask)
        × IsCoherent (state_at p g fuel log cache head ask).1
  state_at_lem cache head ask c =
      (state_at-answer cache head ask c, state_at-IsCoherent cache head ask c)
