-- ===== src/Core/Log/Devices.antt =====
-- What `push` lets in: the records that keep each device's readings rising.
use ko_ls.Base.{
  ◌+◌, ◌%◌, ◌^◌, true, ◌&&◌, Option, none, some, List, [], ◌∷◌, ◌++◌, if◌then◌else◌, ◌≡◌, refl,
  arith, Option-cases, inl, inr,
}
use ko_ls.Base.Order.{Bytes, bytes_ord, ◌==◌, ==_comm}
use ko_ls.Base.Result.{is_ok}
use ko_ls.Base.BTreeMap.{BTreeMap, get, insert}
use ko_ls.Base.BTreeMap.Laws.{get-insert}
use ko_ls.Platform.{Platform, Storage}
use ko_ls.Core.Hlc.{Hlc, hlc_ord}
use ko_ls.Core.Record.{Record}
use ko_ls.Core.Segment.{per_device_strict, framed}
use ko_ls.Core.Segment.Order.{noted, per_device_strict-append}
use ko_ls.Core.Log.{AuthorLog, last_by, push}

-- The reading of the record, or the other one where there is none.
abbrev reading_or : Option Hlc → Option Record → Option Hlc
reading_or other none = other
reading_or other (some r) = some r.hlc

get-noted :
    (device : Bytes) (seen : BTreeMap Bytes Hlc) (rs : List Record)
    → get device (noted seen rs) ≡ reading_or (get device seen) (last_by device rs)
unfolding noted last_by
get-noted device seen [] = refl
get-noted device seen (r ∷ rs) = elim (Option-cases (last_by device rs)) [
  | inl e ↦ ground (
    arith,
    get-noted device (insert r.device r.hlc seen) rs,
    get-insert device r.device r.hlc seen,
    ==_comm device r.device,
  )
  | inr (x, e) ↦ ground (arith, get-noted device (insert r.device r.hlc seen) rs)
]

get_nothing : (device : Bytes) → get {V = Hlc} device [] ≡ none
unfolding get
get_nothing device = refl

module _ (p : Platform) (s : Storage) where
  -- On a log whose readings rise device by device, a record is accepted exactly if it is of the log's
  -- channel and of the author and the readings rise with it too. Then it stands last among the log's
  -- records, its framed bytes are behind the others in the encoder, it counts as one more record
  -- unpublished, modulo 2 ^ 64, and the log is otherwise as it was; a refused one leaves the whole log
  -- as it was.
  pub push-per_device_strict :
      (author : s.Signer) (r : Record) (log : AuthorLog p s)
      → per_device_strict [] log.segment.records ≡ true
      → (is_ok (push p s author r log).0 ≡ (
          (r.channel == log.channel)
          && ((r.author == s.signer_id author)
              && per_device_strict [] (log.segment.records ++ r ∷ []))))
        × ((push p s author r log).1 ≡ (
            if is_ok (push p s author r log).0
            then record log {
              segment = record log.segment { records = log.segment.records ++ r ∷ [] };
              encoder = s.extend log.encoder (framed p r) log.dek;
              unpublished = (log.unpublished + 1) % 2 ^ 64;
            }
            else log))
  unfolding push
  push-per_device_strict author r log h =
      elim (Option-cases (last_by r.device log.segment.records)) [
        | inl e ↦
            let free = get-noted r.device [] log.segment.records in
            (
              ground (
                arith,
                per_device_strict-append [] log.segment.records r,
                free,
                get_nothing r.device,
              ),
              ground arith,
            )
        | inr (x, e) ↦
            let held = get-noted r.device [] log.segment.records in
            (ground (arith, per_device_strict-append [] log.segment.records r, held), ground arith)
      ]
