-- ===== src/Core/Log.antt =====
-- An author's log of one channel, on the node that writes it: crates/kols-core/src/log.rs.
pub mod Encoding
pub mod Versions
pub mod Devices
pub mod Rebase
use ko_ls.Base.{
  ℕ, zero, suc, ◌+◌, ◌-◌, ◌%◌, ◌^◌, Bool, true, false, ◌&&◌, ◌||◌, not, Option, none, some, List,
  [], ◌∷◌, ◌++◌, if◌then◌else◌, max,
}
use ko_ls.Base.Order.{Bytes, bytes_ord, ◌==◌, ◌≺◌}
use ko_ls.Base.Text.{codes}
use ko_ls.Base.Result.{Result, ok, err}
use ko_ls.Base.BTreeMap.{values}
use ko_ls.Platform.{Platform, Storage}
use ko_ls.Core.Hlc.{Hlc, hlc_ord}
use ko_ls.Core.Errors.{CoreError, bad_signature, non_monotonic_clock, storage}
use ko_ls.Core.Ids.{author_log_pointer, author_segment_pointer}
use ko_ls.Core.Record.{ChannelId, IdentityId, Hash, Record}
use ko_ls.Core.Permissions.{chat_log_content_type}
use ko_ls.Core.Segment.{Segment, new, header_bytes, canonical_bytes, framed}
use ko_ls.Core.View.Admission.{insert_all}

-- The latest record of a device, as `iter().rev().find(...)` gives it.
unfoldable pub last_by : Bytes → List Record → Option Record
last_by device [] = none
last_by device (r ∷ rs) = elim (last_by device rs) [
  | some later ↦ some later
  | none ↦ if r.device == device then some r else none
]

-- `u64` addition as a release build has it
abbrev pub add_u64 : ℕ → ℕ → ℕ
add_u64 a b = (a + b) % 2 ^ 64

module _ (p : Platform) (s : Storage) where
  pub record Published : Type 0 where
    pub object : s.Object
    pub pointer : s.Pointer
    pub new_chunks : List Bytes

  pub record AuthorLog : Type 0 where
    pub channel : ChannelId
    pub pointer_id : Bytes
    pub dek : s.Dek
    pub spec : s.ChunkSpec
    pub segment : Segment
    pub pointer : Option s.Pointer
    pub previous_manifest : Option s.Manifest
    pub encoder : s.Encoder
    pub unpublished : ℕ

  -- `AuthorLog::open`
  unfoldable pub open_log : s.Signer → ChannelId → s.Dek → s.ChunkSpec → AuthorLog
  open_log author channel dek spec =
      let segment = new channel (s.signer_id author) 0 none in
      record {
        channel = channel;
        pointer_id = author_segment_pointer p channel (s.signer_id author) 0;
        dek = dek;
        spec = spec;
        segment = segment;
        pointer = none;
        previous_manifest = none;
        encoder = s.extend (s.fresh spec) (header_bytes p segment) dek;
        unpublished = 0;
      }

  -- The record goes on the end of the open segment.
  abbrev pub pushed : Record → AuthorLog → AuthorLog
  pushed r log = record log {
    encoder = s.extend log.encoder (framed p r) log.dek;
    segment = record log.segment { records = log.segment.records ++ r ∷ [] };
    unpublished = add_u64 log.unpublished 1;
  }

  -- `AuthorLog::push`: the outcome, and the log after it.
  unfoldable pub push : s.Signer → Record → AuthorLog → Result CoreError (Unit {0}) × AuthorLog
  unfolding last_by
  push author r log =
      if not (r.channel == log.channel) || not (r.author == s.signer_id author)
      then (err bad_signature, log)
      else elim (last_by r.device log.segment.records) [
        | none ↦ (ok tt, pushed r log)
        | some last ↦
            if last.hlc ≺ r.hlc
            then (ok tt, pushed r log)
            else (err (non_monotonic_clock last.hlc r.hlc), log)
      ]

  -- `AuthorLog::seal`
  unfoldable pub seal : Hash → s.Dek → AuthorLog → AuthorLog
  seal sealed next log =
      let sequence = add_u64 log.segment.sequence 1 in
      let segment = new log.channel log.segment.author sequence (some sealed) in
      record log {
        segment = segment;
        pointer_id = author_segment_pointer p log.channel log.segment.author sequence;
        dek = next;
        pointer = none;
        previous_manifest = none;
        unpublished = 0;
        encoder = s.extend (s.fresh log.spec) (header_bytes p segment) next;
      }

  -- The loops that walk a pointer's version up.
  unfoldable pub update_times : ℕ → s.Signer → Bytes → s.State → s.Pointer → Option s.Pointer
  update_times zero author cid state q = some q
  update_times (suc n) author cid state q = elim (s.update q author cid state) [
    | none ↦ none
    | some next ↦ update_times n author cid state next
  ]

  -- The first pointer of `publish_current`.
  abbrev pub first_pointer : s.Signer → s.State → AuthorLog → Option s.Pointer
  first_pointer author state log =
      let cid = s.manifest_cid (s.shared log.encoder) in
      elim log.pointer [
        | none ↦
            s.publish author log.pointer_id chat_log_content_type cid (s.commitment log.dek) state
        | some prior ↦ s.update prior author cid state
      ]

  -- The last pointer of `publish_current`: one version for each record pushed, one at least.
  unfoldable pub next_pointer : s.Signer → s.State → AuthorLog → Option s.Pointer
  unfolding update_times
  next_pointer author state log = elim (first_pointer author state log) [
    | none ↦ none
    | some q ↦
        update_times (max log.unpublished 1 - 1) author (s.manifest_cid (s.shared log.encoder))
          state q
  ]

  -- `AuthorLog::publish_current`
  unfoldable pub publish_current :
      s.Signer → s.State → AuthorLog → Result CoreError Published × AuthorLog
  unfolding next_pointer
  publish_current author state log =
      let object = s.shared log.encoder in
      elim (next_pointer author state log) [
        | none ↦ (err storage, log)
        | some q ↦ (
          ok (record {
            object = object;
            pointer = q;
            new_chunks = elim log.previous_manifest [
              | some previous ↦ s.new_chunks_since object previous
              | none ↦ s.chunks (s.manifest object)
            ];
          }),
          record log {
            unpublished = 0;
            pointer = some q;
            previous_manifest = some (s.manifest object);
          },
        )
      ]

  -- `AuthorLog::append`
  unfoldable pub append :
      s.Signer → Record → s.State → AuthorLog → Result CoreError Published × AuthorLog
  unfolding push publish_current
  append author r state log =
      let (outcome, after) = push author r log in
      elim outcome [ err e ↦ (err e, after) | ok _ ↦ publish_current author state after ]

  -- The union of two record lists by place, in merge order.
  unfoldable pub union : List Record → List Record → List Record
  union theirs ours = values (insert_all p (theirs ++ ours) [])

  -- The log that `rebase` publishes.
  unfoldable pub rebased : s.Pointer → Segment → AuthorLog → AuthorLog
  unfolding union
  rebased canonical theirs log =
      let segment : Segment = record log.segment {
        sequence = theirs.sequence;
        previous = theirs.previous;
        records = union theirs.records log.segment.records;
      } in
      record log {
        segment = segment;
        pointer = some canonical;
        previous_manifest =
            some (s.manifest (s.encode (canonical_bytes p theirs) log.dek log.spec));
        encoder = s.extend (s.fresh log.spec) (canonical_bytes p segment) log.dek;
      }

  -- `AuthorLog::rebase`
  unfoldable pub rebase :
      s.Signer → s.Pointer → Segment → s.State → AuthorLog → Result CoreError Published × AuthorLog
  unfolding rebased publish_current
  rebase author canonical theirs state log =
      if not (s.pointer_id canonical == log.pointer_id)
        || (not (theirs.channel == log.channel) || not (theirs.author == log.segment.author))
      then (err bad_signature, log)
      else publish_current author state (rebased canonical theirs log)

  -- `publish_head_index`
  unfoldable pub publish_head_index :
      s.Signer → ChannelId → ℕ → s.Dek → s.ChunkSpec → s.State → Result CoreError Published
  unfolding update_times
  publish_head_index author channel head dek spec state =
      let who = s.signer_id author in
      let object = s.encode (canonical_bytes p (new channel who head none)) dek spec in
      let cid = s.manifest_cid object in
      elim (s.publish author (author_log_pointer p channel who) chat_log_content_type cid
        (s.commitment dek) state) [
          | none ↦ err storage
          | some first ↦ elim (update_times head author cid state first) [
            | none ↦ err storage
            | some q ↦
                ok (record {
                  object = object;
                  pointer = q;
                  new_chunks = s.chunks (s.manifest object);
                })
          ]
        ]
