-- ===== src/Core/Record/Decode/RoundTrip.antt =====
-- A record decodes from its canonical bytes.
use mathlib.Core.List.{append-nil, append_assoc}
use ko_ls.Base.{
  ◌-◌, true, false, [], ◌++◌, leb, length, length-append, take, drop, take-append, drop-append, ◌≡◌,
  ◌≢◌, refl, sym, ap, ◌∙◌, arith, Bool-cases, inl, inr,
}
use ko_ls.Base.Order.{Bytes, nat_ord}
use ko_ls.Base.Result.{ok}
use ko_ls.Platform.{Platform}
use ko_ls.Platform.Laws.{IsCodec}
use ko_ls.Core.Record.{
  Record, RecordBody, RecordClass, tag, class_of, encode_body, canonical_bytes, record_domain,
}
use ko_ls.Core.Record.Decode.{decode_unread, decode_end, decode_rest, decode_record, assembled}
use ko_ls.Core.Record.Decode.Fields.{is_known, IsBody, IsRecord}
use ko_ls.Core.Record.Decode.Stages.{
  behind, canonical_bytes-parts, head_of, decode_head-canonical_bytes, decode_known-encode_body,
  encode_bytes-eq, decode_known-none,
}

-- Cutting a text into what precedes, a middle and an end of 64 bytes.
cut :
    (pre mid post : Bytes)
    → length post ≡ 64
    → (leb 64 (length (pre ++ (mid ++ post))) ≡ true)
      × (leb
            (length (pre ++ (mid ++ post)) - length (mid ++ post))
            (length (pre ++ (mid ++ post)) - 64)
          ≡ true)
      × (drop
            (length (pre ++ (mid ++ post)) - length (mid ++ post))
            (take (length (pre ++ (mid ++ post)) - 64) (pre ++ (mid ++ post)))
          ≡ mid)
      × (drop (length (pre ++ (mid ++ post)) - 64) (pre ++ (mid ++ post)) ≡ post)
cut pre mid post h =
    let whole = length-append pre (mid ++ post) in
    let tail = length-append mid post in
    let body_len = length-append pre mid in
    let start : length (pre ++ (mid ++ post)) - length (mid ++ post) ≡ length pre =
      omega (arith, whole) in
    let end : length (pre ++ (mid ++ post)) - 64 ≡ length (pre ++ mid) =
      omega (arith, whole, tail, body_len, h) in
    let grouped : pre ++ (mid ++ post) ≡ (pre ++ mid) ++ post = sym (append_assoc pre mid post) in
    (
      ground (arith, whole, tail, h),
      rw (start, end) (ground (arith, body_len)),
      rw (start, end, grouped, take-append (pre ++ mid) post) (drop-append pre mid),
      rw (end, grouped) (drop-append (pre ++ mid) post),
    )

module _ (p : Platform) (IsText : Bytes → Type 0) (c : IsCodec p IsText) where
  read_signature : (b : Bytes) → length b ≡ 64 → p.read_fixed 64 b ≡ ok (b, [])
  read_signature b h = ap (p.read_fixed 64) (sym (append-nil b)) ∙ c.read_fixed-append 64 b [] h

  decode_end-signature :
      (r : Record)
      → length r.signature ≡ 64
      → decode_end p (head_of p IsText c r) r.body r.signature ≡ ok r
  decode_end-signature r h = rw (read_signature r.signature h) refl

  decode_rest-known :
      (r : Record) (input : Bytes)
      → IsRecord p IsText r
      → is_known (tag r.body) ≡ true
      → decode_rest p input (head_of p IsText c r) ≡ ok r
  unfolding decode_rest
  decode_rest-known r input h e =
      rw (decode_rest, decode_known-encode_body p IsText c r.body r.signature h.body e)
        (decode_end-signature r h.signature_len)

  -- A body of a kind that this build does not know is its kind and its bytes.
  unread_body :
      (b : RecordBody)
      → IsBody p IsText b
      → is_known (tag b) ≡ false
      → (RecordBody.unknown (record { kind = tag b; bytes = encode_body p b }) ≡ b)
        × (class_of (tag b) ≢ RecordClass.reserved)
  unfolding tag encode_body
  unread_body (RecordBody.unknown u) h e = (
    ap (λ bytes. RecordBody.unknown (record { kind = u.kind; bytes = bytes }))
        (encode_bytes-eq p IsText c u.bytes h.3),
    h.2,
  )
  unread_body b h e = absurd (known_differs e)
    where
      known_differs : true ≡ false → ⊥
      known_differs d = cc d

  front : Record → Bytes
  front r =
      p.domain record_domain
      ++ (r.channel
          ++ (r.author
              ++ (r.device
                  ++ (p.i64 r.hlc.wall_millis ++ (p.u32 r.hlc.counter ++ p.variant (tag r.body))))))

  canonical_bytes-front :
      (r : Record) → canonical_bytes p r ≡ front r ++ (encode_body p r.body ++ r.signature)
  unfolding front
  canonical_bytes-front r = canonical_bytes-parts p IsText c r ∙ simp append_assoc

  unread_whole :
      (r : Record)
      → IsRecord p IsText r
      → is_known (tag r.body) ≡ false
      → decode_unread p (canonical_bytes p r) (head_of p IsText c r) ≡ ok r
  unfolding decode_unread
  unread_whole r h e =
      let parts = cut (front r) (encode_body p r.body) r.signature h.signature_len in
      rw (canonical_bytes-front r, decode_unread, parts.0, parts.1, parts.2, parts.3)
        (ap (λ b. ok (assembled p (head_of p IsText c r) b r.signature))
          (unread_body r.body h.body e).0)

  decode_rest-unread :
      (r : Record)
      → IsRecord p IsText r
      → is_known (tag r.body) ≡ false
      → decode_rest p (canonical_bytes p r) (head_of p IsText c r) ≡ ok r
  unfolding decode_rest
  decode_rest-unread r h e =
      let unreserved = (unread_body r.body h.body e).1 in
      let unread = unread_whole r h e in
      let unknown_kind = decode_known-none p IsText c (tag r.body) (behind p IsText c r) e in
      ground (arith, unreserved, unread, unknown_kind)

  -- Under the laws of the codec, a record whose fields have the sizes of their types decodes from its
  -- canonical bytes, of whatever kind its body is: one that this build knows, or one that it does
  -- not and that is not reserved.
  pub decode_record-canonical_bytes :
      (r : Record) → IsRecord p IsText r → decode_record p (canonical_bytes p r) ≡ ok r
  unfolding decode_record
  decode_record-canonical_bytes r h =
      rw (decode_head-canonical_bytes p IsText c r h) (elim (Bool-cases (is_known (tag r.body))) [
        | inl e ↦ decode_rest-known r (canonical_bytes p r) h e
        | inr e ↦ decode_rest-unread r h e
      ])
