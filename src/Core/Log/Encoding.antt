-- ===== src/Core/Log/Encoding.antt =====
-- What an author's log publishes: at every step, the object that encoding its open segment as a
-- whole gives, however it was extended to that point.
use mathlib.Core.List.{append-nil, append_assoc}
use ko_ls.Base.{
  List, [], ◌∷◌, ◌++◌, ◌≡◌, ◌⊎◌, subst, refl, sym, ap, ◌∙◌, arith, Option-cases, inl, inr,
}
use ko_ls.Base.Order.{Bytes, bytes_ord}
use ko_ls.Base.Result.{ok}
use ko_ls.Platform.{Platform, Storage}
use ko_ls.Platform.Laws.{extend_all, concat, IsAppendOnly}
use ko_ls.Core.Record.{ChannelId, Hash, Record}
use ko_ls.Core.Segment.{Segment, new, header_bytes, canonical_bytes, extended, framed}
use ko_ls.Core.Log.{
  AuthorLog, Published, open_log, pushed, push, seal, rebased, rebase, publish_current,
  next_pointer,
}

concat-append : (xs : List Bytes) (b : Bytes) → concat (xs ++ b ∷ []) ≡ concat xs ++ b
unfolding concat
concat-append [] b = append-nil b
concat-append (x ∷ xs) b =
    ap (λ c. x ++ c) (concat-append xs b) ∙ sym (append_assoc x (concat xs) b)

extend_all-append :
    (s : Storage) (e : s.Encoder) (xs : List Bytes) (b : Bytes) (d : s.Dek)
    → extend_all s e (xs ++ b ∷ []) d ≡ s.extend (extend_all s e xs d) b d
unfolding extend_all
extend_all-append s e [] b d = refl
extend_all-append s e (x ∷ xs) b d = extend_all-append s (s.extend e x d) xs b d

extended-append :
    (p : Platform) (bytes : Bytes) (rs : List Record) (r : Record)
    → extended p bytes (rs ++ r ∷ []) ≡ extended p bytes rs ++ framed p r
unfolding extended
extended-append p bytes [] r = refl
extended-append p bytes (x ∷ rs) r = extended-append p (bytes ++ framed p x) rs r

module _ (p : Platform) (s : Storage) where
  -- The encoder was given the segment's bytes, in some pieces, under the log's key.
  abbrev pub IsEncoded : AuthorLog p s → Type 0
  IsEncoded log =
      (first : Bytes) × (rest : List Bytes) × (concat (first ∷ rest)
        ≡ canonical_bytes p log.segment)
      × (log.encoder ≡ extend_all s (s.fresh log.spec) (first ∷ rest) log.dek)

  -- The logs that the operations make, with whatever arguments and outcomes.
  pub data Reachable : AuthorLog p s → Type 0 where
    opened :
        (author : s.Signer) (channel : ChannelId) (dek : s.Dek) (spec : s.ChunkSpec)
        → Reachable (open_log p s author channel dek spec)
    after_push :
        (author : s.Signer) (r : Record) {log : AuthorLog p s}
        → Reachable log
        → Reachable (push p s author r log).1
    after_seal :
        (sealed : Hash) (next : s.Dek) {log : AuthorLog p s}
        → Reachable log
        → Reachable (seal p s sealed next log)
    after_publish :
        (author : s.Signer) (state : s.State) {log : AuthorLog p s}
        → Reachable log
        → Reachable (publish_current p s author state log).1
    after_rebase :
        (author : s.Signer) (canonical : s.Pointer) (theirs : Segment) (state : s.State)
        {log : AuthorLog p s}
        → Reachable log
        → Reachable (rebase p s author canonical theirs state log).1

  pushed-IsEncoded :
      (r : Record) (log : AuthorLog p s) → IsEncoded log → IsEncoded (pushed p s r log)
  unfolding canonical_bytes header_bytes
  pushed-IsEncoded r log (first, rest, same, given) = (
    first,
    rest ++ framed p r ∷ [],
    concat-append (first ∷ rest) (framed p r)
        ∙ ap (λ b. b ++ framed p r) same
        ∙ sym (extended-append p (header_bytes p log.segment) log.segment.records r),
    ap (λ e. s.extend e (framed p r) log.dek) given
        ∙ sym (extend_all-append s (s.fresh log.spec) (first ∷ rest) (framed p r) log.dek),
  )

  push-cases :
      (author : s.Signer) (r : Record) (log : AuthorLog p s)
      → ((push p s author r log).1 ≡ log) ⊎ ((push p s author r log).1 ≡ pushed p s r log)
  unfolding push
  push-cases author r log = ground arith

  -- An encoder given some bytes at once holds them as one piece.
  begun :
      (bytes : Bytes) (spec : s.ChunkSpec) (d : s.Dek)
      → (concat (bytes ∷ []) ≡ bytes)
        × (s.extend (s.fresh spec) bytes d ≡ extend_all s (s.fresh spec) (bytes ∷ []) d)
  unfolding concat extend_all
  begun bytes spec d = (append-nil bytes, refl)

  publish_current-IsEncoded :
      (author : s.Signer) (state : s.State) (log : AuthorLog p s)
      → IsEncoded log
      → IsEncoded (publish_current p s author state log).1
  unfolding publish_current
  publish_current-IsEncoded author state log h =
      elim (Option-cases (next_pointer p s author state log)) [
        | inl e ↦ rw (e, publish_current) h
        | inr (q, e) ↦ rw (e, publish_current) h
      ]

  rebased-IsEncoded :
      (canonical : s.Pointer) (theirs : Segment) (log : AuthorLog p s)
      → IsEncoded (rebased p s canonical theirs log)
  unfolding rebased
  rebased-IsEncoded canonical theirs log =
      let bytes = canonical_bytes p (rebased p s canonical theirs log).segment in
      (bytes, [], (begun bytes log.spec log.dek).0, (begun bytes log.spec log.dek).1)

  object_of :
      (author : s.Signer) (state : s.State) (log : AuthorLog p s) (out : Published p s)
      → (publish_current p s author state log).0 ≡ ok out
      → out.object ≡ s.shared log.encoder
  unfolding publish_current
  object_of author state log out h = ground arith

  rebase-cases :
      (author : s.Signer) (canonical : s.Pointer) (theirs : Segment) (state : s.State)
      (log : AuthorLog p s)
      → ((rebase p s author canonical theirs state log).1 ≡ log)
        ⊎ ((rebase p s author canonical theirs state log).1
            ≡ (publish_current p s author state (rebased p s canonical theirs log)).1)
  unfolding rebase
  rebase-cases author canonical theirs state log = ground arith

  Reachable-IsEncoded : (log : AuthorLog p s) → Reachable log → IsEncoded log
  unfolding new
  Reachable-IsEncoded log (opened author channel dek spec) =
      unfold open_log canonical_bytes extended in
      let bytes = header_bytes p (open_log p s author channel dek spec).segment in
      (bytes, [], (begun bytes spec dek).0, (begun bytes spec dek).1)
  Reachable-IsEncoded log (after_push author r {log = before} way) =
      elim (push-cases author r before) [
        | inl e ↦ subst IsEncoded (sym e) (Reachable-IsEncoded before way)
        | inr e ↦
            subst IsEncoded (sym e) (pushed-IsEncoded r before (Reachable-IsEncoded before way))
      ]
  Reachable-IsEncoded log (after_seal sealed next {log = before} way) =
      unfold seal canonical_bytes extended in
      let bytes = header_bytes p (seal p s sealed next before).segment in
      (bytes, [], (begun bytes before.spec next).0, (begun bytes before.spec next).1)
  Reachable-IsEncoded log (after_publish author state {log = before} way) =
      publish_current-IsEncoded author state before (Reachable-IsEncoded before way)
  Reachable-IsEncoded log (after_rebase author canonical theirs state {log = before} way) =
      elim (rebase-cases author canonical theirs state before) [
        | inl e ↦ subst IsEncoded (sym e) (Reachable-IsEncoded before way)
        | inr e ↦ subst IsEncoded (sym e) (
            publish_current-IsEncoded author state (rebased p s canonical theirs before)
              (rebased-IsEncoded canonical theirs before))
      ]

  -- With an append-only encoder, whatever a log went through (pushes, seals, publishes and rebases,
  -- refused ones included), a publish that succeeds gives the object that encoding its open segment
  -- whole, under its key, gives.
  pub publish_current-object :
      (author : s.Signer) (state : s.State) (log : AuthorLog p s) (out : Published p s)
      → IsAppendOnly s
      → Reachable log
      → (publish_current p s author state log).0 ≡ ok out
      → out.object ≡ s.encode (canonical_bytes p log.segment) log.dek log.spec
  publish_current-object author state log out law way h =
      let (first, rest, same, given) = Reachable-IsEncoded log way in
      object_of author state log out h
      ∙ ap s.shared given
      ∙ law.shared-extend_all log.spec first rest log.dek
      ∙ ap (λ b. s.encode b log.dek log.spec) same
