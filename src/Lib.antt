-- ===== src/Lib.antt =====
-- Mnemes, the multi-device memory control plane: a model of its replication protocol, of its replica
-- and sync layer, of its memory profiles, of its registry, and of its routing of searches.
--
-- The program. A device signs mutation envelopes and fact batches; a receiver checks their form
-- (canonical validation), their signer (trusted-key registry), and whether they collide with what it
-- has seen, keeps a watermark and a state per replica, and applies journal entries to a replica
-- database once each. Memory profiles own stores, and grants open a store of one profile to another.
-- The registry keeps devices, actors, profiles, stores, grants, and the bindings of actors to profiles; from
-- its rows it takes the access decision, builds authorization snapshots and issues permits. Searches
-- are routed to the shards of devices, and what the shards give is merged. Operations are submitted
-- under keys that collapse retries, and run packs are admitted with an attested witness.
--
-- The modules and what they model (paths from the repository's root):
--   Prelude                  Result and its binds, Boolean tests, byte and text encodings, i64
--   Error                    src/error.rs: MnemesError
--   Identity                 src/types.rs: devices, actors, codecs, MemoryItemRef
--   Replication.Error        src/replication/error.rs: ReplicationError
--   Replication.Roles        src/replication/types.rs: SignerRole, ArtifactKind, may_sign
--   Replication.Parts        src/replication/types.rs: the length-prefixed appends of a preimage
--   Replication.Envelope     src/replication/types.rs: MemoryMutationEnvelopeV1, signing_preimage,
--                            same_identity
--   Replication.Canonical    src/replication/canonical.rs: canonical_digest, validate_envelope, one
--                            check_* definition for each group of tests, in the order of the source
--   Replication.StateMachine src/replication/state_machine.rs: can_transition_to, the watermark,
--                            validate_identity_collision
--   Replication.TrustedKey   src/replication/trusted_key.rs: the registry and the admission
--   Replication.Transport, FactCreate, FactSupersede
--                            src/replication/fact_create.rs and fact_supersede.rs: `sign` is sign_batch,
--                            `new` is batch_new, the tests of `validate` after the structure are
--                            check_entries and check_batch_signature
--   Replication.Domains      the domain tags of the three files
--   Profiles.Scope           src/profile_store.rs: MemoryProfileId::parse is parse_profile_id,
--                            MemoryStoreIdentity::new and validate are store_identity_new and
--                            store_identity_validate
--   Profiles.Access          src/profile_store.rs: MemoryAccessGrant, authorize_memory_access
--   Profiles.Digest, Binding, Snapshot
--                            src/profile_store.rs: digest_fields, ActorProfileBinding,
--                            AuthorizationSnapshot and MemoryAccessPermit (X::new is x_new, X::validate
--                            is x_validate, expected_digest is binding_digest and
--                            snapshot_expected_digest)
--   Registry                 src/store.rs: the tables, with the rows and constraints of the schema
--   Registry.Devices         bootstrap, register_device, set_device_status and the other device writes
--   Registry.Tokens          DeviceCredential, parse_authorization_token, token_device_id and
--                            authenticate_request
--   Registry.Lifecycle       register_memory_profile, register_memory_store, and their statuses
--   Registry.Grants          grant_memory_access, revoke_memory_access, the grants read back, and the
--                            store's authorize_memory_access as authorize_store_access
--   Registry.Bindings        bind_actor_profile, revoke_actor_profile_binding, resolve_actor_profile
--   Registry.Snapshots       build_authorization_snapshot and its loop (consider_all),
--                            validate_authorization_snapshot, issue_memory_access_permit
--   Registry.Commands        all the writes as one data type, run one after the other
--   Shards                   src/shards.rs: the catalog, routing_tokens and rank_shards
--   Shards.Merge             src/shards.rs: merge_routed_results
--   Shards.Cache             src/store.rs: ShardStoreCache; the loop of insert_key is evict, which gives none
--                            when it would not end
--   Operations               src/types.rs and src/store.rs: OperationEnvelope, and submit_operation as
--                            look_up on one state of the rows and insert_operation on a later one
--   Operations.RunPack       src/run_pack.rs: the tests of import_run_pack_observation (admit_run_pack), and
--                            the operation that it submits
--   Sync.Replica             src/replica.rs: ReplicaApplier::apply_entry
--   Sync.Batch               src/sync.rs and src/sync_handler.rs: the export, sync_batch and
--                            process_sync_request
-- Tests, TransportTests and the Tests of the other parts run the code at concrete values.
--
-- Conventions. A Rust `Result` is Prelude's Result, `?` and an early return are its bind. Code that may
-- panic gives an Option, with none for the panic. `&mut self` is state passing. A str is the list of its
-- chars' code points, a Vec<u8> or array a list of bytes; what the types of the fields say of ranges and
-- lengths is a hypothesis (IsTyped, IsTypedBatch) where a theorem needs it. Unsigned integers are natural
-- numbers, i64 is ℤ, and a sum of i64s wraps as in a release build (wrapping_next, wrapping_add), where a
-- debug build panics; the `as u32` of a length keeps its wrap. A formatted message is the data that it is
-- formatted from. All recursion is structural; the one fuel is that of Prelude.Decimal, the
-- number itself, which is more than its digits.
--
-- Parameters. sha2 and ed25519_dalek are the record Crypto, of which nothing is assumed but, for what
-- is signed, that a key pair verifies its signatures (IsKeyPair). semantic_memory is FactCreateJournal
-- and FactSupersedeOwner. serde_json and hex are functions. SQLite is the record Io, in which every call
-- may fail, and the rule that a transaction that is dropped changes nothing; the rows of a query are an
-- argument, and the replay of an entry changes the memory but not the journal table.
--
-- The registry. A table is a list of rows, the newest first; a query is a search of it, a JOIN on a
-- primary key a lookup, ORDER BY a stable sort. An INSERT or UPDATE that violates a constraint of the
-- schema is an error and changes nothing. Each write holds the one connection to its end and is one
-- transaction, so a run of writes is a sequence of commands. Where submit_operation,
-- authenticate_request and build_authorization_snapshot read under several locks, others may write in
-- between, and the state of each read is an argument (Reads, for a snapshot). The clock, random UUIDs,
-- and the digest of a token are arguments; a time that is cast to SQLite's signed integer keeps the
-- cast's wrap.
--
-- Not modelled: of src/store.rs the routed search around the merge, the journal of facts, and lineage
-- and provenance; src/server.rs and the binaries (HTTP and command line); of src/run_pack.rs the
-- token, the choice of the actor and the provenance edge; of src/types.rs the records of provenance
-- queries. Of the modelled files the serde glue, Display, the opening of databases and the parsing of
-- UUIDs are left out: identities are canonical texts. Of a shard's row the statistics are left out.
pub mod Prelude
pub mod Error
pub mod Identity
pub mod Replication
pub mod Profiles
pub mod Registry
pub mod Shards
pub mod Operations
pub mod Sync
