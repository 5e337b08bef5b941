-- ===== src/Core/Segment/Authorship.antt =====
-- What `Segment::verify` accepts: records of this channel and author, each signed.
use ko_ls.Base.{ℕ, Option, map, sym, List, [], ◌∷◌, All, ◌≡◌, ◌↔◌, refl, arith, inl, inr}
use ko_ls.Base.Order.{bytes_ord, ==_iff}
use ko_ls.Base.Result.{ok, Result-cases}
use ko_ls.Platform.{Platform}
use ko_ls.Core.Record.{Record, verify_signature, create, ChannelId, RecordBody, Hash}
use ko_ls.Core.Hlc.{Hlc}
use ko_ls.Core.Segment.{Segment, new, verify_records, verify}
use ko_ls.Platform.Laws.{IsSigning}

module _ (p : Platform) where
  -- The record is one of the segment's channel and author, and its signature verifies.
  abbrev pub IsOwn : Segment → Record → Type 0
  IsOwn s r = (r.channel ≡ s.channel) × (r.author ≡ s.author) × (verify_signature p r ≡ ok tt)

  verify_records-All :
      (s : Segment) (rs : List Record) → verify_records p s rs ≡ ok tt → All (IsOwn s) rs
  unfolding verify_records
  verify_records-All s [] h = tt
  verify_records-All s (r ∷ rs) h = elim (Result-cases (verify_signature p r)) [
    | inl (e, bad) ↦ ground arith
    | inr (done, good) ↦ (
      (
        bytes_ord.same_eq r.channel s.channel (ground arith),
        bytes_ord.same_eq r.author s.author (ground arith),
        good,
      ),
      verify_records-All s rs (ground arith),
    )
  ]

  verify_records_of_All :
      (s : Segment) (rs : List Record) → All (IsOwn s) rs → verify_records p s rs ≡ ok tt
  unfolding verify_records
  verify_records_of_All s [] h = refl
  verify_records_of_All s (r ∷ rs) h = ground (
    arith,
    h.0,
    verify_records_of_All s rs h.1,
    (==_iff r.channel s.channel).1,
    (==_iff r.author s.author).1,
  )

  -- A segment verifies exactly if each of its records names the segment's channel and author and
  -- carries a signature that verifies.
  pub verify-All : (s : Segment) → (verify p s ≡ ok tt) ↔ All (IsOwn s) s.records
  unfolding verify
  verify-All s = (verify_records-All s s.records, verify_records_of_All s s.records)

module _ (p : Platform) (who : p.Identity) (channel : ChannelId) where
  -- The records that an author creates in a channel.
  abbrev pub created : List (Hlc × RecordBody) → List Record
  created = map (λ e. create p who channel e.0 e.1)

  created-IsOwn :
      (s : Segment) (posts : List (Hlc × RecordBody))
      → IsSigning p
      → s.channel ≡ channel
      → s.author ≡ p.identity_id who
      → All (IsOwn p s) (created posts)
  unfolding create verify_signature
  created-IsOwn s [] law c a = tt
  created-IsOwn s ((hlc, body) ∷ posts) law c a =
      ((sym c, sym a, rw (law.verify-sign) refl), created-IsOwn s posts law c a)

  -- Where signatures verify under their keys, a segment of what its author created in its channel
  -- verifies.
  verify-created :
      (sequence : ℕ) (previous : Option Hash) (posts : List (Hlc × RecordBody))
      → IsSigning p
      → verify p
          (record (new channel (p.identity_id who) sequence previous) { records = created posts })
        ≡ ok tt
  unfolding new
  verify-created sequence previous posts law =
      let s : Segment = record (new channel (p.identity_id who) sequence previous) {
        records = created posts;
      } in
      (verify-All p s).1 (created-IsOwn s posts law refl refl)
