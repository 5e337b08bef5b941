-- ===== src/Core/Channel/Admission/Published.antt =====
-- What a reader makes of an application entry, and of one that an author published.
use ko_ls.Base.{
  true, Option, some, List, [], ◌∷◌, any, ◌≡◌, ◌∙◌, sym, ap, refl, inl, inr, arith, Option-cases,
}
use ko_ls.Base.Order.{Bytes, bytes_ord, ◌==◌, ==_iff, ==_refl}
use ko_ls.Base.Result.{ok, Result-cases}
use ko_ls.Platform.{Platform, Governance}
use ko_ls.Platform.Laws.{IsEntryLog, IsCodec}
use ko_ls.Core.Record.{CategoryId, IdentityId}
use ko_ls.Core.Policy.{NetworkProfile}
use ko_ls.Core.Channel.{ChannelEntry, entry_kind, acceptable, check_entry}
use ko_ls.Core.Channel.Codec.{encode_entry, decode_payload, decode_entry}
use ko_ls.Core.Channel.Codec.RoundTrip.{IsEntry, decode_entry-encode_entry}
use ko_ls.Core.Channel.Admission.{
  chat_namespace, admit_entry, first_held, declaration, to_app_entry, read_parts, read,
}
use ko_ls.Core.Channel.Admission.Scopes.{
  IsAuthorised, admit_entry-IsAuthorised, permitted, declaration-permitted,
}

module _ (p : Platform) (g : Governance) where
  decode_entry-kind :
      (kind payload : Bytes) (e : ChannelEntry)
      → decode_entry p kind payload ≡ ok e
      → entry_kind e.body ≡ kind
  unfolding decode_entry
  decode_entry-kind kind payload e h = elim (Result-cases (decode_payload p payload)) [
    | inl (f, bad) ↦ absurd (ground arith)
    | inr (d, good) ↦
        let read_it : d ≡ e = ground arith in
        let same_kind : (entry_kind d.body == kind) ≡ true = ground arith in
        ap (λ x. entry_kind x.body) (sym read_it) ∙ (==_iff (entry_kind d.body) kind).0 same_kind
  ]

  pub decode_payload-ok :
      (kind payload : Bytes) (e : ChannelEntry)
      → decode_entry p kind payload ≡ ok e
      → decode_payload p payload ≡ ok e
  unfolding decode_entry
  decode_payload-ok kind payload e h = elim (Result-cases (decode_payload p payload)) [
    | inl (f, bad) ↦ absurd (ground arith)
    | inr (d, good) ↦ let read_it : d ≡ e = ground arith in good ∙ ap ok read_it
  ]

  read_parts-checks :
      (namespace kind : Bytes) (declared : g.Capability) (payload : Bytes)
      (profile : NetworkProfile) (known : Option CategoryId) (e : ChannelEntry)
      → read_parts p g namespace kind declared payload profile known ≡ ok e
      → (decode_entry p kind payload ≡ ok e)
        × (check_entry e ≡ ok tt)
        × (admit_entry p g e namespace declared profile known ≡ ok tt)
  unfolding read_parts
  read_parts-checks namespace kind declared payload profile known e h =
      elim (Result-cases (decode_entry p kind payload)) [
        | inl (f, bad) ↦ absurd (ground arith)
        | inr (d, good) ↦ elim (Result-cases (check_entry d)) [
          | inl (f, bad) ↦ absurd (ground arith)
          | inr (done, fine) ↦
              elim (Result-cases (admit_entry p g d namespace declared profile known)) [
                | inl (f, bad) ↦ absurd (ground arith)
                | inr (passed, allowed) ↦
                    let read_it : d ≡ e = ground arith in
                    (
                      good ∙ ap ok read_it,
                      ap check_entry (sym read_it) ∙ fine,
                      ap (λ x. admit_entry p g x namespace declared profile known) (sym read_it)
                          ∙ allowed,
                    )
              ]
        ]
      ]

  -- Where equality of capabilities is equality, an entry that a reader accepts came as an application
  -- entry of the chat namespace, in a server; its payload decodes to it under its own kind, its
  -- fields are within their limits, and the capability declared is that of its kind's verb at a scope that
  -- reaches it.
  pub read-IsAuthorised :
      (body : g.EntryBody) (profile : NetworkProfile) (known : Option CategoryId) (e : ChannelEntry)
      → IsEntryLog g
      → read p g body profile known ≡ ok e
      → (profile ≡ NetworkProfile.server)
        × (declared : g.Capability) × (payload : Bytes) × (g.as_app_entry body
            ≡ some (chat_namespace, entry_kind e.body, declared, payload))
        × (decode_entry p (entry_kind e.body) payload ≡ ok e)
        × (check_entry e ≡ ok tt)
        × IsAuthorised p g e known declared
  unfolding read
  read-IsAuthorised body profile known e y h = elim (Option-cases (g.as_app_entry body)) [
    | inl bad ↦ absurd (ground arith)
    | inr (parts, found) ↦
        let (decoded, bounded, admitted) =
          read_parts-checks parts.0 parts.1 parts.2 parts.3 profile known e (ground arith) in
        let (ours, server, authorised) =
          admit_entry-IsAuthorised p g e parts.0 parts.2 profile known y admitted in
        let own_kind : entry_kind e.body ≡ parts.1 = decode_entry-kind parts.1 parts.3 e decoded in
        (
          server,
          parts.2,
          parts.3,
          cc (found, ours, own_kind),
          rw own_kind decoded,
          bounded,
          authorised,
        )
  ]

  -- Only a server's reader accepts anything.
  pub read-server :
      (body : g.EntryBody) (profile : NetworkProfile) (known : Option CategoryId) (e : ChannelEntry)
      → read p g body profile known ≡ ok e
      → profile ≡ NetworkProfile.server
  unfolding read admit_entry
  read-server body profile known e h = elim (Option-cases (g.as_app_entry body)) [
    | inl bad ↦ absurd (ground arith)
    | inr (parts, found) ↦
        let (decoded, bounded, admitted) =
          read_parts-checks parts.0 parts.1 parts.2 parts.3 profile known e (ground arith) in
        ground arith
  ]

  first_held-In :
      (state : g.State) (author : IdentityId) (c : g.Capability) (cs : List g.Capability)
      → IsEntryLog g
      → first_held p g state author cs ≡ some c
      → (any (g.same_capability c) cs ≡ true) × (g.identity_holds state author c ≡ true)
  unfolding first_held
  first_held-In state author c [] y h = cc
  first_held-In state author c (d ∷ cs) y h =
      ground (arith, first_held-In state author c cs y, y.same_capability-iff c d)

  read-parts :
      (body : g.EntryBody) (namespace kind : Bytes) (c : g.Capability) (payload : Bytes)
      (profile : NetworkProfile) (known : Option CategoryId)
      → g.as_app_entry body ≡ some (namespace, kind, c, payload)
      → read p g body profile known ≡ read_parts p g namespace kind c payload profile known
  unfolding read
  read-parts body namespace kind c payload profile known h = rw (h, read) refl

  read_parts-encode_entry :
      (e : ChannelEntry) (c : g.Capability) (known : Option CategoryId)
      → decode_entry p (entry_kind e.body) (encode_entry p e) ≡ ok e
      → check_entry e ≡ ok tt
      → g.is_valid_app_entry_name chat_namespace (entry_kind e.body) ≡ true
      → any (g.same_capability c) (acceptable p g e known) ≡ true
      → read_parts p g chat_namespace
          (entry_kind e.body)
          c
          (encode_entry p e)
          NetworkProfile.server
          known
        ≡ ok e
  unfolding read_parts admit_entry
  read_parts-encode_entry e c known d b n a = rw (n, d, b, a, ==_refl chat_namespace) refl

  -- Where the codec reads back what it writes and the governance reads back application entries, and
  -- the entry's fields have the sizes of their types and are within their limits and its name is well
  -- formed, an author that the permissions let publishes the entry under a capability that it holds,
  -- and every reader of a server gets the entry back.
  pub read-to_app_entry :
      (e : ChannelEntry) (state : g.State) (author : IdentityId) (known : Option CategoryId)
      (IsText : Bytes → Type 0)
      → IsCodec p IsText
      → IsEntryLog g
      → IsEntry p IsText e
      → check_entry e ≡ ok tt
      → g.is_valid_app_entry_name chat_namespace (entry_kind e.body) ≡ true
      → permitted p g state author e known ≡ true
      → (declared : g.Capability) × (body : g.EntryBody) × (g.identity_holds state author declared
          ≡ true)
        × (g.as_app_entry body
            ≡ some (chat_namespace, entry_kind e.body, declared, encode_entry p e))
        × (to_app_entry p g e state author known ≡ ok body)
        × (read p g body NetworkProfile.server known ≡ ok e)
  unfolding to_app_entry declaration
  read-to_app_entry e state author known IsText k y w b n h =
      elim (Option-cases (declaration p g e state author known)) [
        | inl nothing ↦ absurd (ground (arith, declaration-permitted p g state author e known))
        | inr (c, found) ↦
            let (among, held) = first_held-In state author c (acceptable p g e known) y found in
            let body = g.app_entry chat_namespace (entry_kind e.body) c (encode_entry p e) in
            let opened =
              y.as_app_entry-app_entry chat_namespace (entry_kind e.body) c (encode_entry p e) in
            (
              c,
              body,
              held,
              opened,
              rw (found, to_app_entry) refl,
              read-parts body chat_namespace (entry_kind e.body) c (encode_entry p e)
                    NetworkProfile.server known opened
                  ∙ read_parts-encode_entry e c known (decode_entry-encode_entry p IsText k e w) b n
                      among,
            )
      ]
