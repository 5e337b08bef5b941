-- ===== src/Core/Live/Delivery.antt =====
-- A live record from its author to a member who holds the epoch's key.
use mathlib.Core.List.{append-nil}
use ko_ls.Base.{[], length, ◌≡◌, ◌↔◌, refl, sym, ap, ◌∙◌, arith, inl, inr, Bool-cases}
use ko_ls.Base.Order.{Bytes, bytes_ord, ◌==◌, ==_iff}
use ko_ls.Base.Result.{ok, ◌>>=◌, Result-cases}
use ko_ls.Platform.{Platform, Sealing}
use ko_ls.Platform.Laws.{IsCodec, IsSealing}
use ko_ls.Core.Record.{ChannelId, Hash, Record, canonical_bytes, verify_signature}
use ko_ls.Core.Record.Decode.{decode_record}
use ko_ls.Core.Record.Decode.Fields.{IsRecord}
use ko_ls.Core.Record.Decode.RoundTrip.{decode_record-canonical_bytes}
use ko_ls.Core.Live.{
  LivePayload, channel_content_key, seal_live, read_live, open_live, encode_live, decode_live,
}

module _ (p : Platform) (s : Sealing) (IsText : Bytes → Type 0) where
  decode_live-encode_live :
      (b : LivePayload)
      → IsCodec p IsText
      → length b.channel ≡ 32
      → length b.rotation ≡ 32
      → decode_live p (encode_live p b) ≡ ok b
  unfolding decode_live encode_live
  decode_live-encode_live b c channel_len rotation_len =
      let last : p.read_bytes (p.bytes b.sealed) ≡ ok (b.sealed, []) =
        ap p.read_bytes (sym (append-nil (p.bytes b.sealed))) ∙ c.read_bytes-bytes b.sealed [] in
      rw
        (
          c.read_domain-domain,
          c.read_fixed-append 32 b.channel _ channel_len,
          c.read_fixed-append 32 b.rotation _ rotation_len,
          last,
        )
        refl

  read_live-genuine :
      (channel : ChannelId) (text : Bytes) (r : Record)
      → read_live p s channel text ≡ ok r
      → (decode_record p text ≡ ok r) × (r.channel ≡ channel) × (verify_signature p r ≡ ok tt)
  unfolding read_live
  read_live-genuine channel text r h = elim (Result-cases (decode_record p text)) [
    | inl (why, bad) ↦ absurd (ground arith)
    | inr (q, found) ↦ elim (Bool-cases (q.channel == channel)) [
      | inr other ↦ absurd (ground arith)
      | inl same ↦ elim (Result-cases (verify_signature p q)) [
        | inl (why, forged) ↦ absurd (ground arith)
        | inr (done, signed) ↦
            let it : q ≡ r = ground arith in
            (
              found ∙ ap ok it,
              ap (λ x. x.channel) (sym it) ∙ (==_iff q.channel channel).0 same,
              ap (verify_signature p) (sym it) ∙ signed,
            )
      ]
    ]
  ]

  read_live-ok :
      (channel : ChannelId) (text : Bytes) (r : Record)
      → decode_record p text ≡ ok r
      → r.channel ≡ channel
      → verify_signature p r ≡ ok tt
      → read_live p s channel text ≡ ok r
  unfolding read_live
  read_live-ok channel text r found same signed =
      rw (found, (==_iff r.channel channel).1 same, signed) refl

  open_live-read_live :
      (channel : ChannelId) (rotation : Hash) (epoch : s.EpochKey) (text : Bytes)
      → IsSealing s
      → open_live p s
          (record {
            channel = channel;
            rotation = rotation;
            sealed = s.seal_chunk (channel_content_key p s epoch channel rotation) text;
          })
          epoch
        ≡ read_live p s channel text
  unfolding open_live
  open_live-read_live channel rotation epoch text law =
      rw (law.open_chunk-seal_chunk (channel_content_key p s epoch channel rotation) text) refl

  -- What a holder of the key seals for a channel, whatever the text, opens as a record exactly if
  -- the text decodes to that record, the record names that very channel, and its signature verifies.
  pub open_live-resealed :
      (channel : ChannelId) (rotation : Hash) (epoch : s.EpochKey) (text : Bytes) (r : Record)
      → IsSealing s
      → (open_live p s
            (record {
              channel = channel;
              rotation = rotation;
              sealed = s.seal_chunk (channel_content_key p s epoch channel rotation) text;
            })
            epoch
          ≡ ok r)
        ↔ ((decode_record p text ≡ ok r) × (r.channel ≡ channel) × (verify_signature p r ≡ ok tt))
  open_live-resealed channel rotation epoch text r law = (
    λ h.
        read_live-genuine channel text r
          (sym (open_live-read_live channel rotation epoch text law) ∙ h),
    λ h.
        open_live-read_live channel rotation epoch text law
        ∙ read_live-ok channel text r h.0 h.1 h.2,
  )

  -- Under the laws of the codec and of the sealing, a record whose fields have the sizes of their
  -- types and whose signature verifies, sealed for an epoch and a rotation of 32 bytes and sent
  -- over the wire, opens in that epoch as the same record.
  pub open_live-delivered :
      (r : Record) (epoch : s.EpochKey) (rotation : Hash) (c : IsCodec p IsText)
      → IsSealing s
      → IsRecord p IsText r
      → length rotation ≡ 32
      → verify_signature p r ≡ ok tt
      → (decode_live p (encode_live p (seal_live p s r epoch rotation)) >>= λ b.
          open_live p s b epoch)
        ≡ ok r
  unfolding seal_live
  open_live-delivered r epoch rotation c law sized rotation_len signed =
      rw (decode_live-encode_live (seal_live p s r epoch rotation) c sized.channel_len rotation_len)
        (open_live-read_live r.channel rotation epoch (canonical_bytes p r) law
          ∙ read_live-ok r.channel (canonical_bytes p r) r
              (decode_record-canonical_bytes p IsText c r sized) refl signed)
