-- ===== src/Sync/Batch.antt =====
-- src/sync.rs and src/sync_handler.rs: a batch is exported up to the first gap, and applied entry by
-- entry. The rows are what the query gives, in its order; the database fails as `Io` says. Sums of i64 wrap, as in
-- a release build; a debug build panics where they would.
pub mod Laws
use mnemes.Prelude.{
  ℕ, zero, suc, ◌+◌, Bool, true, false, ◌&&◌, not, Option, none, some, List, [], ◌∷◌, ◌++◌, length,
  leb, ltb, ◌==◌, ◌!=◌, if◌then◌else◌, Result, ok, err, ◌>>=◌, map_err,
}
use mnemes.Prelude.Bytes.{Bytes}
use mnemes.Prelude.Text.{Text}
use mnemes.Prelude.Int.{ℤ, int_eq, wrapping_next, wrapping_add, as_i64}
use mnemes.Error.{MnemesError, replication, quoting}
use mnemes.Sync.Replica.{
  ReplicaDatabase, Io, ReplicaApplier, ApplyOutcome, Applied, JournalPayload, apply_entry,
}

-- `conn.prepare`, with the words of its error: a statement takes the limit and gives the rows, each read
-- or failed, or the words of another error.
abbrev pub Prepared : Type 0
Prepared = Result Text (ℤ → Result Text (List (Result Text JournalPayload)))

-- The loop over the rows of the query: the entries, the sequence expected next, and whether there
-- was a gap.
unfoldable pub collect :
    ℤ → List (Result Text JournalPayload) → Result MnemesError (List JournalPayload × ℤ × Bool)
collect expected [] = ok ([], expected, false)
collect expected (err e ∷ rows) = err (replication (quoting "row" e))
collect expected (ok entry ∷ rows) =
    let rest = collect (wrapping_next entry.sequence) rows in
    if entry.sequence != expected
    then ok ([], expected, true)
    else rest >>= λ (entries, following, has_gap). ok (entry ∷ entries, following, has_gap)

-- The entries, the next sequence, and whether there is more. `prepared` is what `prepare` gives: a
-- statement that answers, for a limit, with the rows of the device and the store from the first sequence
-- on.
unfoldable pub export_device_journal :
    Prepared → ℤ → ℕ → Result MnemesError (List JournalPayload × ℤ × Bool)
export_device_journal prepared start_sequence limit = do
  statement ← map_err (λ e. replication (quoting "journal export" e)) prepared
  answer ← map_err (λ e. replication (quoting "export query" e)) (statement (as_i64 limit))
  collected ← collect start_sequence answer
  ok (collected.0, collected.1, not collected.2 && leb limit (length collected.0))

-- A line of the `errors` of an answer.
pub data SyncError : Type 0 where
  apply_failed : ℤ → MnemesError → SyncError
  hex_failed : ℤ → Text → SyncError

pub record Counts : Type 0 where
  pub synced : ℕ
  pub errors : List SyncError

abbrev pub no_counts : Counts
no_counts = record { synced = 0; errors = [] }

abbrev pub count_error : SyncError → Counts → Counts
count_error x c = record c { errors = c.errors ++ (x ∷ []) }

-- The match on the outcome of one application.
abbrev pub count : ℤ → Result MnemesError ApplyOutcome → Counts → Counts
count sequence (ok outcome) c = record c { synced = c.synced + 1 }
count sequence (err e) c = count_error (apply_failed sequence e) c

pub record SyncResult : Type 0 where
  pub entries_synced : ℕ
  pub next_sequence : ℤ
  pub has_more : Bool
  pub errors : List SyncError

pub record SyncEntry : Type 0 where
  pub sequence : ℤ  -- i64
  pub operation_kind : Text
  pub payload_hex : Text

pub record SyncRequest : Type 0 where
  pub home_device_id : Text
  pub store_id : Text
  pub start_sequence : ℤ  -- i64
  pub entries : List SyncEntry

pub record SyncResponse : Type 0 where
  pub synced : ℕ
  pub next_sequence : ℤ
  pub has_more : Bool
  pub errors : List SyncError

abbrev pub entry_payload : SyncEntry → Bytes → JournalPayload
entry_payload e payload = record {
  sequence = e.sequence;
  operation_kind = e.operation_kind;
  payload = payload;
}

module _ {ℓ} {M : Type ℓ} (sha256 : Bytes → Bytes)
    (dispatch : Text → Bytes → M → Result MnemesError M) where
  -- One application with the replay of the entry.
  abbrev pub dispatch_entry : Io → ReplicaApplier → JournalPayload → ReplicaDatabase M → Applied M
  dispatch_entry io a e db = apply_entry sha256 (dispatch e.operation_kind e.payload) io a e db

  -- The loop over the entries; `io n` is what the database does for the entry at place `n`.
  unfoldable pub apply_all :
      (ℕ → Io)
      → ReplicaApplier
      → ℕ
      → List JournalPayload
      → Counts
      → ReplicaDatabase M
      → Counts × ReplicaDatabase M
  apply_all io a n [] counts db = (counts, db)
  apply_all io a n (e ∷ es) counts db =
      let step = dispatch_entry (io n) a e db in
      apply_all io a (suc n) es (count e.sequence step.0 counts) step.1

  -- The loop over what was exported; an export that fails applies nothing.
  abbrev pub sync_exported :
      (ℕ → Io)
      → ReplicaApplier
      → ReplicaDatabase M
      → Result MnemesError (List JournalPayload × ℤ × Bool)
      → Result MnemesError SyncResult × ReplicaDatabase M
  sync_exported io a db (err e) = (err e, db)
  sync_exported io a db (ok (entries, next_seq, has_more)) =
      let run = apply_all io a 0 entries no_counts db in
      (
        ok (record {
          entries_synced = run.0.synced;
          next_sequence = next_seq;
          has_more = has_more;
          errors = run.0.errors;
        }),
        run.1,
      )

  unfoldable pub sync_batch :
      (ℕ → Io)
      → ReplicaApplier
      → Prepared
      → ℤ
      → ℕ
      → ReplicaDatabase M
      → Result MnemesError SyncResult × ReplicaDatabase M
  sync_batch io a prepared start_sequence max_batch db =
      sync_exported io a db (export_device_journal prepared start_sequence max_batch)

  -- The body of the handler's loop, with what `hex::decode` gave.
  abbrev pub process_entry :
      Io
      → ReplicaApplier
      → SyncEntry
      → Counts
      → ReplicaDatabase M
      → Result Text Bytes
      → Counts × ReplicaDatabase M
  process_entry io a e counts db (err x) = (count_error (hex_failed e.sequence x) counts, db)
  process_entry io a e counts db (ok payload) =
      let step = dispatch_entry io a (entry_payload e payload) db in
      (count e.sequence step.0 counts, step.1)

  -- The loop of the handler; `decode` is `hex::decode`, with the words of its error.
  unfoldable pub process_all :
      (Text → Result Text Bytes)
      → (ℕ → Io)
      → ReplicaApplier
      → ℕ
      → List SyncEntry
      → Counts
      → ReplicaDatabase M
      → Counts × ReplicaDatabase M
  process_all decode io a n [] counts db = (counts, db)
  process_all decode io a n (e ∷ es) counts db =
      let step = process_entry (io n) a e counts db (decode e.payload_hex) in
      process_all decode io a (suc n) es step.0 step.1

  unfoldable pub process_sync_request :
      (Text → Result Text Bytes)
      → (ℕ → Io)
      → SyncRequest
      → ReplicaDatabase M
      → SyncResponse × ReplicaDatabase M
  process_sync_request decode io request db =
      let a : ReplicaApplier = record {
        device_id = request.home_device_id;
        store_id = request.store_id;
      } in
      let run = process_all decode io a 0 request.entries no_counts db in
      (
        record {
          synced = run.0.synced;
          next_sequence =
              wrapping_add (wrapping_add request.start_sequence run.0.synced) (length run.0.errors);
          has_more = false;
          errors = run.0.errors;
        },
        run.1,
      )
