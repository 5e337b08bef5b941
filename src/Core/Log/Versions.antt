-- ===== src/Core/Log/Versions.antt =====
-- How far a publish moves the pointer's version.
use ko_ls.Base.{ℕ, zero, suc, ◌+◌, ◌-◌, Option, none, some, ◌≡◌, arith, Option-cases, inl, inr, max}
use ko_ls.Base.Order.{Bytes}
use ko_ls.Base.Result.{ok}
use ko_ls.Platform.{Platform, Storage}
use ko_ls.Platform.Laws.{IsVersioned}
use ko_ls.Core.Permissions.{chat_log_content_type}
use ko_ls.Core.Record.{ChannelId}
use ko_ls.Core.Ids.{author_log_pointer}
use ko_ls.Core.Segment.{new, canonical_bytes}
use ko_ls.Core.Log.{
  AuthorLog, Published, update_times, first_pointer, next_pointer, publish_current,
  publish_head_index,
}

module _ (p : Platform) (s : Storage) where
  version-update_times :
      (n : ℕ) (author : s.Signer) (cid : Bytes) (state : s.State) (before after : s.Pointer)
      → IsVersioned s
      → update_times p s n author cid state before ≡ some after
      → s.version after ≡ s.version before + n
  unfolding update_times
  version-update_times zero author cid state before after law h = ground arith
  version-update_times (suc n) author cid state before after law h =
      elim (Option-cases (s.update before author cid state)) [
        | inl e ↦ ground arith
        | inr (next, e) ↦ ground (
          arith,
          law.version-update before author cid state next e,
          version-update_times n author cid state next after law,
        )
      ]

  -- The version that a log's next record gets: its pointer's next one, or the first.
  abbrev pub next_version : Option s.Pointer → ℕ
  next_version none = 0
  next_version (some prior) = s.version prior + 1

  version-first_pointer :
      (author : s.Signer) (state : s.State) (log : AuthorLog p s) (q : s.Pointer)
      → IsVersioned s
      → first_pointer p s author state log ≡ some q
      → s.version q ≡ next_version log.pointer
  version-first_pointer author state log q law h = elim (Option-cases log.pointer) [
    | inl e ↦ ground (
      arith,
      law.version-publish author log.pointer_id chat_log_content_type
          (s.manifest_cid (s.shared log.encoder)) (s.commitment log.dek) state q,
    )
    | inr (prior, e) ↦
        ground
          (arith, law.version-update prior author (s.manifest_cid (s.shared log.encoder)) state q)
  ]

  -- Where pointers count their versions, a publish that succeeds takes the next version, the first one
  -- where nothing was published, and one more for each further record counted since the last publish;
  -- its pointer is then the log's, and no record is left counted.
  publish_current-version :
      (author : s.Signer) (state : s.State) (log : AuthorLog p s) (out : Published p s)
      → IsVersioned s
      → (publish_current p s author state log).0 ≡ ok out
      → (s.version out.pointer ≡ next_version log.pointer + (max log.unpublished 1 - 1))
        × ((publish_current p s author state log).1.pointer ≡ some out.pointer)
        × ((publish_current p s author state log).1.unpublished ≡ 0)
  unfolding publish_current next_pointer
  publish_current-version author state log out law h =
      elim (Option-cases (first_pointer p s author state log)) [
        | inl e ↦ ground arith
        | inr (q, e) ↦
            let cid = s.manifest_cid (s.shared log.encoder) in
            elim (Option-cases (update_times p s (max log.unpublished 1 - 1) author cid state q)) [
              | inl f ↦ ground arith
              | inr (last, f) ↦
                  let same : last ≡ out.pointer = ground arith in
                  let moved =
                    version-update_times (max log.unpublished 1 - 1) author cid state q last law
                      f in
                  (
                    ground (arith, moved, version-first_pointer author state log q law e),
                    ground arith,
                    ground arith,
                  )
            ]
      ]

  -- Where pointers count their versions, a head index that is published stands at the version of the
  -- sequence that it names.
  publish_head_index-version :
      (author : s.Signer) (channel : ChannelId) (head : ℕ) (dek : s.Dek) (spec : s.ChunkSpec)
      (state : s.State) (out : Published p s)
      → IsVersioned s
      → publish_head_index p s author channel head dek spec state ≡ ok out
      → s.version out.pointer ≡ head
  unfolding publish_head_index
  publish_head_index-version author channel head dek spec state out law h =
      let who = s.signer_id author in
      let object = s.encode (canonical_bytes p (new channel who head none)) dek spec in
      let cid = s.manifest_cid object in
      let first =
        s.publish author (author_log_pointer p channel who) chat_log_content_type cid
          (s.commitment dek) state in
      elim (Option-cases first) [
        | inl e ↦ ground arith
        | inr (q, e) ↦ elim (Option-cases (update_times p s head author cid state q)) [
          | inl f ↦ ground arith
          | inr (last, f) ↦
              let same : last ≡ out.pointer = ground arith in
              ground (
                arith,
                version-update_times head author cid state q last law f,
                law.version-publish author (author_log_pointer p channel who) chat_log_content_type
                    cid (s.commitment dek) state q e,
              )
        ]
      ]
