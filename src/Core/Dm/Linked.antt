-- ===== src/Core/Dm/Linked.antt =====
-- Whom an invitation comes from.
use ko_ls.Base.{true, ◌≡◌, sym, ap, ◌∙◌, arith, inl, inr, ◌⊎◌, ◌≢◌, ◌↔◌, Bool-cases}
use ko_ls.Base.Order.{Bytes, bytes_ord, pair_ord, ◌==◌, ==_iff}
use ko_ls.Base.Result.{ok}
use ko_ls.Platform.{Invites}
use ko_ls.Core.Record.{IdentityId}
use ko_ls.Core.Dm.{DmInvite, matched, verify_from}

module _ (v : Invites) where
  abbrev IsLinking : DmInvite v → IdentityId → Bytes → Type 0
  IsLinking m sender shared =
      (((v.linked m.link).0 ≡ (shared, sender))
        × ((v.linked m.link).1 ≡ (v.network m.invite, v.issuer m.invite)))
      ⊎ (((v.linked m.link).0 ≡ (v.network m.invite, v.issuer m.invite))
          × ((v.linked m.link).1 ≡ (shared, sender)))

  matched-IsLinking :
      (m : DmInvite v) (sender : IdentityId) (shared : Bytes)
      → matched v m sender shared ≡ true
      → IsLinking m sender shared
  matched-IsLinking m sender shared h =
      let here : Bytes × IdentityId = (shared, sender) in
      let there : Bytes × IdentityId = (v.network m.invite, v.issuer m.invite) in
      ground (
        arith,
        ==_iff (v.linked m.link).0 here,
        ==_iff (v.linked m.link).1 there,
        ==_iff (v.linked m.link).0 there,
        ==_iff (v.linked m.link).1 here,
      )

  -- What `verify_from` has tested.
  verify_from-IsLinking :
      (m : DmInvite v) (sender : IdentityId) (shared : Bytes)
      → verify_from v m sender shared ≡ ok tt
      → IsLinking m sender shared × (v.network m.invite ≢ shared)
  unfolding verify_from
  verify_from-IsLinking m sender shared h = elim (Bool-cases (v.verify_link m.link)) [
    | inr bad ↦ absurd (ground arith)
    | inl good ↦ elim (Bool-cases (matched v m sender shared)) [
      | inr unmatched ↦ absurd (ground arith)
      | inl at ↦ elim (Bool-cases (v.network m.invite == shared)) [
        | inl same ↦ absurd (ground arith)
        | inr apart ↦ (
          matched-IsLinking m sender shared at,
          λ e. ground (arith, (==_iff (v.network m.invite) shared).1 e),
        )
      ]
    ]
  ]

  one_sender :
      (m : DmInvite v) (a b : IdentityId) (here there : Bytes)
      → verify_from v m a here ≡ ok tt
      → verify_from v m b there ≡ ok tt
      → (here ≡ there) × (a ≡ b)
  one_sender m a b here there first second =
      let (by_a, outside_here) = verify_from-IsLinking m a here first in
      let (by_b, outside_there) = verify_from-IsLinking m b there second in
      elim by_a [
        | inl (a0, a1) ↦ elim by_b [
          | inl (b0, b1) ↦
              let e : (here, a) ≡ (there, b) = sym a0 ∙ b0 in (ap (λ x. x.0) e, ap (λ x. x.1) e)
          | inr (b0, b1) ↦ absurd (outside_here (ap (λ x. x.0) (sym b0 ∙ a0)))
        ]
        | inr (a0, a1) ↦ elim by_b [
          | inl (b0, b1) ↦ absurd (outside_there (ap (λ x. x.0) (sym a0 ∙ b0)))
          | inr (b0, b1) ↦
              let e : (here, a) ≡ (there, b) = sym a1 ∙ b1 in (ap (λ x. x.0) e, ap (λ x. x.1) e)
        ]
      ]

  -- An invitation that verifies from a sender in a network verifies from just that sender in just
  -- that network: the link has one end in the conversation, and the other end is the sender's.
  pub verify_from_unique :
      (m : DmInvite v) (a b : IdentityId) (here there : Bytes)
      → verify_from v m a here ≡ ok tt
      → (verify_from v m b there ≡ ok tt) ↔ ((here ≡ there) × (a ≡ b))
  verify_from_unique m a b here there first =
      (one_sender m a b here there first, λ same. rw (sym same.0, sym same.1) first)
