-- ===== src/Error.antt =====
-- src/error.rs: the errors of the crate. A formatted message is the data that it is formatted from.
use mnemes.Prelude.{ℕ, String}
use mnemes.Prelude.Text.{Text}
use mnemes.Prelude.Int.{ℤ}

pub data Message : Type 0 where
  words : String → Message
  -- a field, and what is wrong with it
  of_field : String → String → Message
  -- a field with more bytes than allowed
  exceeds : String → ℕ → Message
  -- what is quoted after the words
  quoting : String → Text → Message
  -- the words, and the sequence that they speak of
  at_sequence : String → ℤ → Message

pub data MnemesError : Type 0 where
  device_not_found device_not_active : Message → MnemesError
  invalid_credential : MnemesError
  authorization_denied invalid_memory_scope memory_grant_denied : Message → MnemesError
  actor_profile_binding_denied authorization_snapshot_invalid : Message → MnemesError
  bootstrap_rejected actor_not_found idempotency_conflict database : Message → MnemesError
  provenance_edge_not_found invalid_provenance invalid_as_of : Message → MnemesError
  invalid_shard_catalog legacy_global_store_present : Message → MnemesError
  conflicting_shard_item : Text → MnemesError
  io replication fact_create_rejected fact_supersede_rejected : Message → MnemesError
  fact_supersede_semantic_conflict : MnemesError
  memory : Message → MnemesError
