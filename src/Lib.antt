-- ===== src/Lib.antt =====
-- Verification library of remote-device-sync.
--
-- The program lets a device be reached by its owner's other devices: a signed directory tells where
-- a device is (crates/rds-discovery), a signed grant tells what a peer may do there (crates/rds-core),
-- the agent ties a connection to one grant (crates/rds-agent), and the services then carry sound
-- (crates/rds-audio), pictures (crates/rds-desktop) and directories of files (crates/rds-sync).
--
-- The parts and their files:
--   Base: Boolean tests and machine arithmetic (Tests), lists over the native numbers (Lists),
--     `Result` and its do blocks (Results), `BTreeMap` and `HashMap` as sorted association lists
--     (Map, and ByteMap for names), byte strings (Text).
--   Crypto: what is used of ed25519-dalek and blake3, as a parameter.
--   Grant: crates/rds-core/src/grant.rs. Grant/Scope is `check_scope_path` and the components of a
--     Unix path, Grant/Verify is `Grant::decode` and `Grant::verify`, Grant/Verified the methods of
--     `VerifiedGrant`; Scope/Confined, Verify/Admits, Verified/Renewal and Verified/Permits prove.
--   Discovery: crates/rds-discovery/src. Clock is clock.rs (`Lease`), Authority is authority.rs,
--     Wire and RecordWire are record_wire.rs and relay_route.rs, Records is records/entry.rs
--     (`decide` step by step), Records/Memory is records/memory.rs, and Admission is admission.rs.
--     The store asks `decide` for what replaces an identity's value, `decide` asks the record format
--     for the signed revision and interval and the clock for a lease, and the store asks the limiter
--     (the argument `admit`) before an active value is put in.
--     Registry is registry.rs and Revocations is revocations.rs, as far as snapshots are verified.
--     Policy is policy.rs: its state and the check of a state that is read back; Policy/Store holds
--     the calls. Each call first decides what it would commit (`plan_revocations` and the others) and
--     then commits it (`commit`); Store/Commits puts calls in sequence (`Call`, `run`), Store/Plans
--     says what a decision has established, and Names, Restores, Reopens, Revisions, Advances,
--     Serves and Frozen (a commit that is lost) prove. The policy store asks Registry, Revocations and Authority for signatures and
--     intervals, and Clock for leases.
--   Agent: crates/rds-agent/src. Revocations is the policy of revocations.rs as authorization asks
--     it, Authz is authz.rs (`ConnAuthz`); Authz/Exclusive and Authz/System are about all connections,
--     Authz/Access about `scope`.
--   Audio: crates/rds-audio/src/lib.rs. Audio/Packet is about the wire, Audio/Jitter is
--     `JitterBuffer`.
--   Desktop: crates/rds-desktop/src/order.rs (Order), media_repair.rs (MediaRepair) and mailbox.rs
--     (Mailbox). Mailbox/Log is the abstract log that the queue implements, Mailbox/Wake is `recv`
--     beside senders in other threads, step by step.
--   Sync: crates/rds-sync/src. Paths is `check_rel_path` of proto.rs, Directory is the entries and
--     manifests of directory.rs (Directory/Built is about building one), Wire is directory/wire.rs:
--     Wire/Parts is about the sender's iterator, Wire/Assembled (with Metadata and Ordered) and Wire/Accepted about the receiver.
--     Reconcile is the plans of directory/reconcile.rs, with their effect on a destination.
--   Net: crates/rds-net/src. AckProgress is ack_progress.rs; AckProgress/Stalled puts callbacks in
--     sequence.
--   Tests and Trial modules run the definitions on concrete inputs.
--
-- How the code is read:
--   A function of the code is a function here, with the code's name; a part of a long function that
--   is a definition of its own says so. State is a record that a call takes and returns. Errors are
--   `Result`, with the error type's variants and without their messages. A method that mutates
--   returns the state also when it fails.
--   Numbers are native; `+` and `-` stand where the code neither saturates nor checks. Keys,
--   identities, digests and nonces are the numbers that their bytes spell; names and paths are lists
--   of bytes. Durations are nanoseconds, and a reading of a clock is an argument, as is what a file
--   answers.
--   A lock makes a call one step; the two atomic updates of a picture permit's drop are two steps,
--   so that other calls stand between them.
--   An operation of an agent's connection is one step on its state and on the shared set of grants,
--   with the drop of a lease that ends it.
--   postcard, ed25519-dalek, blake3, the url crate, the address parser and libopus are parameters:
--   `Wire`, `Crypto`, `Libraries`, `Decoders`, `Codec` and `Opus` hold the functions that the code
--   calls. No law is assumed of them but one, by the round trip of a directory snapshot: postcard
--   encodes a sequence of at most 127 entries as one byte and the entries. tokio's `Notify` is a
--   parameter with one law: a notification is kept until a poll takes it. The Tests modules put
--   concrete functions in their place.
--   The recursion is structural, but for `DirectorySnapshotParts`, which is collected on fuel: one
--   round for each entry and one more, and a round takes an entry at least. `Ordered::push`'s
--   eviction loop is given as many rounds as the buffer has pictures; each round drops one, so these are enough.
--
-- Not modelled: signing and issuing (calls of the libraries), the durable record store and its
-- migration, the published metrics, the publisher and the HTTP service, the agent's watchdog, slots
-- and revocation feed, the rest of the transports, the transfer of files, its journal and scans, how a
-- reconcile plan is made of two manifests, conflicts, the
-- relay, capture, codecs and rendering, the clients and command lines, and the copies of other
-- projects under vendor/.
pub mod Base
pub mod Crypto
pub mod Grant
pub mod Discovery
pub mod Audio
pub mod Desktop
pub mod Agent
pub mod Sync
pub mod Net
