-- ===== src/Lib.antt =====
-- The Rust core of ko-ls, a chat without servers on a network of its members: the library
-- crates/kols-core, the gate of crates/kols-api, the verdicts of crates/kols-store, and the replay of
-- channels and the unread counts in crates/kols-node. An author writes signed records (crates/kols-core/src/record.rs) into
-- its own log (log.rs), which it publishes as segments (segment.rs) that a pointer names; a reader
-- merges the logs of a channel into one view (view.rs) by the clock's reading and the record's
-- identifier (hlc.rs, cursor.rs), asks the governance what each author may do (permissions.rs,
-- capabilities.rs), and bounds what it shows (limits.rs, and verdict.rs of kols-store on an index).
-- The channels themselves, and the members' names, are entries of the governance log (channel.rs,
-- names.rs), which a node replays (network.rs of kols-node); a command passes the gate of kols-api
-- (authorize.rs) before a node writes anything (executor.rs).
--
-- Which file models what:
--   Base, Base/*         the shared helpers: tests, lists, orders, the integers of i64 and u32 with
--                        their saturation and their big-endian bytes, results, sorting, and BTreeMap as
--                        its entries in order
--   Platform             what comes of other repositories, as parameters: the codec, hashes and
--                        signatures (Platform), the governance (Governance), the storage (Storage),
--                        sealing (Sealing), invites and links (Invites), the tables of characters
--                        (Unicode); Platform/Laws has what the program relies on of them
--   Core/Hlc             crates/kols-core/src/hlc.rs: Hlc::next, encode, decode
--   Core/Errors          CoreError of crates/kols-core/src/lib.rs
--   Core/Record          crates/kols-core/src/record.rs: the bodies, their classes, payload and
--                        canonical_bytes, id, verify_signature, check_bounds; Core/Record/Decode
--                        has decode
--   Core/Cursor          the position, the tokens and the windows of crates/kols-core/src/cursor.rs
--   Core/Ids             the derivations of crates/kols-core/src/ids.rs
--   Core/Permissions     crates/kols-core/src/permissions.rs and capabilities.rs: scopes and their
--                        capability names, holds, StateAuthority, LogAuthority with its cache
--   Core/Limits          crates/kols-core/src/limits.rs: withheld, its loop body as `step`
--   Core/View            crates/kols-core/src/view.rs: admit, check, render, render_excluding
--   Core/Segment         crates/kols-core/src/segment.rs; Core/Segment/Decode has decode
--   Core/Log             crates/kols-core/src/log.rs: an operation on `&mut self` returns its outcome
--                        and the log after it
--   Core/Live            crates/kols-core/src/live.rs: payloads, sealed, opened, encoded, decoded
--   Core/Dm              crates/kols-core/src/dm.rs: invitations with their links, and knocks
--   Core/Presence        crates/kols-core/src/presence.rs: beats, sealed and opened
--   Core/Channel         crates/kols-core/src/channel.rs: entries, with Core/Channel/Codec for encode
--                        and decode, Core/Channel/Admission for admit, declaration, to_app_entry and
--                        read, and Core/Channel/Sidebar for sidebar_order
--   Core/Policy          crates/kols-core/src/policy.rs: the getters of ChatPolicy, and
--                        ReaderLimits::of of limits.rs
--   Core/Names           crates/kols-core/src/names.rs: name_key, claims, and their replay
--   Api/Command          crates/kols-api/src/command.rs: commands, their verbs and sensitivity
--   Api/Gate, Api/Arms,  crates/kols-api/src/authorize.rs: the helpers, the arms of the match of
--   Api/Authorize        authorize one by one, and authorize
--   Node/Structure       crates/kols-node/src/network.rs: channels and categories
--   Node/Entries         crates/kols-node/src/executor.rs: the entries that the commands write
--   Node/Unread          crates/kols-node/src/unread.rs: the counts and what windows show
--   Store/Verdict        crates/kols-store/src/verdict.rs, and of crates/kols-store/src/schema.rs the
--                        rows of records with insert, holds and admitted_since; the loop over
--                        records of Store::fold in crates/kols-node/src/store.rs
--   Examples/*           the theorems at concrete inputs
--
-- Identifiers, keys, hashes, signatures and strings are their bytes; Arc and borrows are left out.
-- Strings that are shown are lists of code points where the source walks their characters. Lengths
-- and sequence numbers are natural numbers, with u64 additions modulo 2 ^ 64 and i64 arithmetic
-- checked or saturating where the source has it so. Loops over lists are structural recursion. The
-- walk of LogAuthority::chain_to follows parents in a log that is a parameter, so it takes fuel: one
-- unit for each entry on the way is enough, and running out is told apart from a missing entry. The
-- loop of Segment::decode takes a unit for each record, or for each byte where the input is any. The
-- other loops need none. A query of SQL is the filter and the order of its text, over the rows as a
-- list; what a database may refuse is left out, and so are the caches of network.rs.
--
-- Not modelled: the values that a conversation starts with of policy.rs; outcome.rs and event.rs of
-- kols-api, which only carry data; the pages of schema.rs; the file and the totals of unread.rs; the
-- crates kols-net and kols-app and the rest of kols-node, which are I/O, SQL and glue for the larger
-- part. Chunking, sealing and signing are in other repositories.
pub mod Base
pub mod Platform
pub mod Core
pub mod Api
pub mod Node
pub mod Store
pub mod Examples
