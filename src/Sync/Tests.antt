-- ===== src/Sync/Tests.antt =====
-- The synchronization of concrete entries into a memory that is the list of the replayed payloads.
use mnemes.Prelude.{
  ℕ, ◌+◌, ◌≡◌, refl, arith, false, none, List, [], ◌∷◌, length, Result, ok, err, list_beq,
}
use mnemes.Prelude.Bytes.{Bytes}
use mnemes.Prelude.Text.{Text, text}
use mnemes.Prelude.Int.{ℤ, pos, add_count, wrapping_next, wrapping_add, as_i64}
use mnemes.Error.{MnemesError, replication, words}
use mnemes.Sync.Replica.{
  ReplicaDatabase, Io, ReplicaApplier, applied, already_applied, JournalPayload, stored_payload,
  record_and_commit, apply_unless_stored, apply_entry,
}
use mnemes.Sync.Replica.Laws.{
  Outcome, apply_entry-Outcome, Application, run_applications, apply_entry_once,
}
use mnemes.Sync.Batch.{
  Prepared, collect, export_device_journal, apply_failed, SyncResult, SyncRequest, no_counts,
  apply_all, sync_batch, process_all, process_sync_request,
}
use mnemes.Sync.Batch.Laws.{Contiguous, export-Contiguous}
use mnemes.Sync.Batch.Laws.Resync.{CanRead, resync_changes_nothing}

abbrev Memory : Type 0
Memory = List Bytes

abbrev digest : Bytes → Bytes
digest b = b

-- The replay refuses an empty payload.
abbrev dispatch : Text → Bytes → Memory → Result MnemesError Memory
dispatch kind [] memory = err (replication (words "empty payload"))
dispatch kind (b ∷ bs) memory = ok ((b ∷ bs) ∷ memory)

abbrev working : Io
working = record {
  open_connection = none;
  check_applied = none;
  begin = none;
  insert = none;
  commit = none;
}

abbrev always : ℕ → Io
always n = working

abbrev applier : ReplicaApplier
applier = record { device_id = text "device-1"; store_id = text "store-1" }

abbrev entry : ℤ → Bytes → JournalPayload
entry sequence payload = record {
  sequence = sequence;
  operation_kind = text "fact";
  payload = payload;
}

abbrev entries : List JournalPayload
entries = entry (pos 4) (text "a") ∷ entry (pos 5) (text "b") ∷ []

abbrev fresh : ReplicaDatabase Memory
fresh = record { memory = []; mutation_journal = [] }

-- A query whose limit is at least the number of these rows.
abbrev answers : List (Result Text JournalPayload) → Prepared
answers rows = ok (λ limit. ok rows)

opened : Unit {0}
unfolding list_beq stored_payload record_and_commit apply_unless_stored apply_entry collect
    export_device_journal wrapping_next wrapping_add as_i64 apply_all sync_batch process_all
    process_sync_request
opened = tt

first_applied :
    (apply_entry digest
      (dispatch (text "fact") (text "a"))
      working
      applier
      (entry (pos 4) (text "a"))
      fresh).0
    ≡ ok (applied (pos 4))
unfolding opened
first_applied = refl

exported :
    export_device_journal
      (answers (ok (entry (pos 4) (text "a")) ∷ ok (entry (pos 6) (text "c")) ∷ []))
      (pos 4)
      10
    ≡ ok (entry (pos 4) (text "a") ∷ [], pos 5, false)
unfolding opened
exported = refl

-- The second entry fails, and the next sequence is past it.
abbrev partial : SyncResult
partial = record {
  entries_synced = 1;
  next_sequence = pos 6;
  has_more = false;
  errors = apply_failed (pos 5) (replication (words "empty payload")) ∷ [];
}

skipped :
    (sync_batch digest dispatch always applier
      (answers (ok (entry (pos 4) (text "a")) ∷ ok (entry (pos 5) []) ∷ []))
      (pos 4)
      10
      fresh).0
    ≡ ok partial
unfolding opened
skipped = refl

clean : length (apply_all digest dispatch always applier 0 entries no_counts fresh).0.errors ≡ 0
unfolding opened
clean = refl

always-CanRead : CanRead always
always-CanRead = record { opens = λ n. refl; checks = λ n. refl }

abbrev request : SyncRequest
request = record {
  home_device_id = text "device-1";
  store_id = text "store-1";
  start_sequence = pos 4;
  entries = record { sequence = pos 4; operation_kind = text "fact"; payload_hex = text "zz" } ∷ [];
}

abbrev decode : Text → Result Text Bytes
decode hex = err (text "odd digits")

apply_entry-Outcome_example :
    Outcome digest (dispatch (text "fact") (text "a")) applier (entry (pos 4) (text "a")) fresh (
      apply_entry digest
        (dispatch (text "fact") (text "a"))
        working
        applier
        (entry (pos 4) (text "a"))
        fresh)
apply_entry-Outcome_example =
    apply_entry-Outcome digest (dispatch (text "fact") (text "a")) working applier
      (entry (pos 4) (text "a")) fresh

-- Another entry is applied in between, for another store.
abbrev between : List (Application Memory)
between =
    record {
      replay = dispatch (text "fact") (text "b");
      io = working;
      applier = record { device_id = text "device-1"; store_id = text "store-2" };
      entry = entry (pos 4) (text "b");
    }
    ∷ []

abbrev after_both : ReplicaDatabase Memory
after_both =
    run_applications digest between
      (apply_entry digest (dispatch (text "fact") (text "a")) working applier
        (entry (pos 4) (text "a")) fresh).1

apply_entry_once_example :
    apply_entry digest
      (dispatch (text "fact") (text "a"))
      working
      applier
      (entry (pos 4) (text "a"))
      after_both
    ≡ (ok (already_applied (pos 4)), after_both)
apply_entry_once_example =
    apply_entry_once digest (dispatch (text "fact") (text "a")) (dispatch (text "fact") (text "a"))
      working working applier (entry (pos 4) (text "a")) fresh between first_applied refl refl

export-Contiguous_example :
    Contiguous (pos 4) (entry (pos 4) (text "a") ∷ []) × (pos 5 ≡ add_count (pos 4) 1)
export-Contiguous_example =
    export-Contiguous (answers (ok (entry (pos 4) (text "a")) ∷ ok (entry (pos 6) (text "c")) ∷ []))
      (pos 4) 10 (omega arith) (omega arith) exported

resync_changes_nothing_example :
    apply_all digest dispatch always applier 0 entries no_counts
      (apply_all digest dispatch always applier 0 entries no_counts fresh).1
    ≡ (
      record { synced = 0 + length entries; errors = [] },
      (apply_all digest dispatch always applier 0 entries no_counts fresh).1,
    )
resync_changes_nothing_example =
    resync_changes_nothing digest dispatch always always applier entries fresh clean always-CanRead
