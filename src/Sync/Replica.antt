-- ===== src/Sync/Replica.antt =====
-- src/replica.rs: one journal entry is applied to the database of a replica. A transaction that is
-- dropped leaves the database as it was: SQLite is the parameter `Io` and this rule. What the replay
-- changes is the memory, which is of any type; it does not write the journal.
pub mod Laws
use mnemes.Prelude.{
  String, Bool, true, false, ◌&&◌, Option, none, some, List, [], ◌∷◌, ◌++◌, ◌==◌, ◌!=◌, list_eq,
  if◌then◌else◌, Result, ok, err,
}
use mnemes.Prelude.Bytes.{Bytes}
use mnemes.Prelude.Text.{Text}
use mnemes.Prelude.Int.{ℤ, int_eq}
use mnemes.Error.{MnemesError, replication, quoting, at_sequence}

-- A row of `mutation_journal`.
pub record JournalRow : Type 0 where
  pub home_device_id : Text
  pub store_id : Text
  pub sequence : ℤ  -- i64
  pub operation_kind : Text
  pub payload : Bytes

pub record ReplicaDatabase {ℓ} (M : Type ℓ) : Type ℓ where
  pub memory : M
  pub mutation_journal : List JournalRow

-- The calls of SQLite that one application makes: each succeeds, or fails in these words.
pub record Io : Type 0 where
  pub open_connection : Option Text
  pub check_applied : Option Text
  pub begin : Option Text
  pub insert : Option Text
  pub commit : Option Text

pub record ReplicaApplier : Type 0 where
  pub device_id : Text
  pub store_id : Text

pub data ApplyOutcome : Type 0 where
  applied already_applied : ℤ → ApplyOutcome

-- The query for a row of the device, the store and the sequence.
unfoldable pub stored_payload : ReplicaApplier → ℤ → List JournalRow → Option Bytes
stored_payload a seq [] = none
stored_payload a seq (r ∷ rows) =
    let rest = stored_payload a seq rows in
    if r.home_device_id == a.device_id && r.store_id == a.store_id && r.sequence == seq
    then some r.payload
    else rest

-- What an entry asks to be applied.
pub record JournalPayload : Type 0 where
  pub sequence : ℤ  -- i64
  pub operation_kind : Text
  pub payload : Bytes

abbrev pub row_of : ReplicaApplier → JournalPayload → JournalRow
row_of a e = record {
  home_device_id = a.device_id;
  store_id = a.store_id;
  sequence = e.sequence;
  operation_kind = e.operation_kind;
  payload = e.payload;
}

-- The outcome, and the database that is left.
abbrev pub Applied {ℓ} : Type ℓ → Type ℓ
Applied M = Result MnemesError ApplyOutcome × ReplicaDatabase M

module _ {ℓ} {M : Type ℓ} where
  -- A call of SQLite before the rest.
  abbrev pub after : Option Text → String → ReplicaDatabase M → Applied M → Applied M
  after none what db rest = rest
  after (some e) what db rest = (err (replication (quoting what e)), db)

  abbrev pub committed_database :
      ReplicaApplier → JournalPayload → M → ReplicaDatabase M → ReplicaDatabase M
  committed_database a e memory db = record {
    memory = memory;
    mutation_journal = db.mutation_journal ++ (row_of a e ∷ []);
  }

  -- The transaction: what the replay gave, the journal row, the commit.
  unfoldable pub record_and_commit :
      Io → ReplicaApplier → JournalPayload → ReplicaDatabase M → Result MnemesError M → Applied M
  record_and_commit io a e db (err x) = (err x, db)
  record_and_commit io a e db (ok memory) = after io.insert "journal record on apply" db (
      after io.commit "commit apply tx" db
        (ok (applied e.sequence), committed_database a e memory db))

  -- The branch on the payload that is stored under the sequence.
  unfoldable pub apply_unless_stored :
      (Bytes → Bytes)
      → (M → Result MnemesError M)
      → Io
      → ReplicaApplier
      → JournalPayload
      → ReplicaDatabase M
      → Option Bytes
      → Applied M
  apply_unless_stored sha256 replay io a e db (some stored) =
      if sha256 stored != sha256 e.payload
      then (err (replication (at_sequence "replay payload mismatch for sequence" e.sequence)), db)
      else (ok (already_applied e.sequence), db)
  apply_unless_stored sha256 replay io a e db none =
      after io.begin "begin apply tx" db (record_and_commit io a e db (replay db.memory))

  unfoldable pub apply_entry :
      (Bytes → Bytes)
      → (M → Result MnemesError M)
      → Io
      → ReplicaApplier
      → JournalPayload
      → ReplicaDatabase M
      → Applied M
  apply_entry sha256 replay io a e db =
      after io.open_connection "cannot open replica for apply" db (
        after io.check_applied "cannot check replay state" db (
          apply_unless_stored sha256 replay io a e db
            (stored_payload a e.sequence db.mutation_journal)))
