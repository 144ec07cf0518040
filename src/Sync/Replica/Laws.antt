-- ===== src/Sync/Replica/Laws.antt =====
-- src/replica.rs: an application is all or nothing, and happens once.
use mnemes.Prelude.{
  ◌≡◌, refl, Bool, true, false, ◌&&◌, Option, none, some, List, [], ◌∷◌, ◌++◌, ◌==◌, list_eq,
  list_beq_iff, list_beq, not, String, if◌then◌else◌, Result, ok, err,
}
use mnemes.Prelude.Bytes.{Bytes}
use mnemes.Prelude.Text.{Text}
use mnemes.Prelude.Int.{ℤ, int_eq, int_beq_iff}
use mnemes.Error.{MnemesError, replication, at_sequence}
use mnemes.Sync.Replica.{
  JournalRow, ReplicaDatabase, Io, ReplicaApplier, applied, already_applied, ApplyOutcome,
  stored_payload, JournalPayload, row_of, Applied, after, record_and_commit, committed_database,
  apply_unless_stored, apply_entry,
}

-- A row that is found stays found when rows are added after it.
pub stored-append :
    (a : ReplicaApplier) (seq : ℤ) (rows more : List JournalRow) {p : Bytes}
    → stored_payload a seq rows ≡ some p
    → stored_payload a seq (rows ++ more) ≡ some p
unfolding stored_payload
stored-append a seq [] more h = cc
stored-append a seq (r ∷ rows) more {p} h =
    go (r.home_device_id == a.device_id && r.store_id == a.store_id && r.sequence == seq) h
      (stored-append a seq rows more)
  where
    go :
        (b : Bool)
        → (if b then some r.payload else stored_payload a seq rows) ≡ some p
        → (stored_payload a seq rows ≡ some p → stored_payload a seq (rows ++ more) ≡ some p)
        → (if b then some r.payload else stored_payload a seq (rows ++ more)) ≡ some p
    go true h ih = h
    go false h ih = ih h

-- The row of an entry is found under its sequence, unless an older one is.
pub stored-new :
    (a : ReplicaApplier) (e : JournalPayload) (rows : List JournalRow)
    → stored_payload a e.sequence rows ≡ none
    → stored_payload a e.sequence (rows ++ (row_of a e ∷ [])) ≡ some e.payload
unfolding stored_payload
stored-new a e [] h =
    rw
      (
        (list_beq_iff a.device_id a.device_id).1 refl,
        (list_beq_iff a.store_id a.store_id).1 refl,
        (int_beq_iff e.sequence e.sequence).1 refl,
      )
      refl
stored-new a e (r ∷ rows) h =
    go (r.home_device_id == a.device_id && r.store_id == a.store_id && r.sequence == e.sequence) h
      (stored-new a e rows)
  where
    go :
        (b : Bool)
        → (if b then some r.payload else stored_payload a e.sequence rows) ≡ none
        → (stored_payload a e.sequence rows ≡ none
            → stored_payload a e.sequence (rows ++ (row_of a e ∷ [])) ≡ some e.payload)
        → (if b then some r.payload else stored_payload a e.sequence (rows ++ (row_of a e ∷ [])))
          ≡ some e.payload
    go true h ih = cc
    go false h ih = ih h

module _ {ℓ} {M : Type ℓ} (sha256 : Bytes → Bytes) where
  -- The payload of the entry is stored under its sequence, up to its digest.
  pub record IsStored (a : ReplicaApplier) (e : JournalPayload) (db : ReplicaDatabase M)
      : Type 0 where
    pub stored : Bytes
    pub found : stored_payload a e.sequence db.mutation_journal ≡ some stored
    pub same : sha256 stored ≡ sha256 e.payload

module _ {ℓ} {M : Type ℓ} (sha256 : Bytes → Bytes) (replay : M → Result MnemesError M) where
  -- What an application left: nothing changed, or the replay and its row were committed together.
  pub data Outcome (a : ReplicaApplier) (e : JournalPayload) (db : ReplicaDatabase M)
      : Applied M → Type ℓ where
    failed : (x : MnemesError) → Outcome a e db (err x, db)
    seen :
        (p : Bytes)
        → stored_payload a e.sequence db.mutation_journal ≡ some p
        → sha256 p ≡ sha256 e.payload
        → Outcome a e db (ok (already_applied e.sequence), db)
    committed :
        (m : M)
        → stored_payload a e.sequence db.mutation_journal ≡ none
        → replay db.memory ≡ ok m
        → Outcome a e db (ok (applied e.sequence), committed_database a e m db)

  after-Outcome :
      (call : Option Text) (what : String) (a : ReplicaApplier) (e : JournalPayload)
      (db : ReplicaDatabase M) (rest : Applied M)
      → Outcome a e db rest
      → Outcome a e db (after call what db rest)
  after-Outcome none what a e db rest h = h
  after-Outcome (some x) what a e db rest h = failed _

  transaction-Outcome :
      (io : Io) (a : ReplicaApplier) (e : JournalPayload) (db : ReplicaDatabase M)
      (r : Result MnemesError M)
      → stored_payload a e.sequence db.mutation_journal ≡ none
      → replay db.memory ≡ r
      → Outcome a e db (record_and_commit io a e db r)
  unfolding record_and_commit
  transaction-Outcome io a e db (err x) h k = failed x
  transaction-Outcome io a e db (ok m) h k =
      after-Outcome io.insert "journal record on apply" a e db _
        (after-Outcome io.commit "commit apply tx" a e db _ (committed m h k))

  -- Whatever fails in it, an application either returns an error and changes nothing; or finds the
  -- sequence stored with a payload of the same digest, says so and changes nothing; or finds no row,
  -- and leaves the memory that the replay gave together with the new row.
  pub apply_entry-Outcome :
      (io : Io) (a : ReplicaApplier) (e : JournalPayload) (db : ReplicaDatabase M)
      → Outcome a e db (apply_entry sha256 replay io a e db)
  unfolding apply_entry
  apply_entry-Outcome io a e db =
      after-Outcome io.open_connection "cannot open replica for apply" a e db _ (
        after-Outcome io.check_applied "cannot check replay state" a e db _
          (go (stored_payload a e.sequence db.mutation_journal) refl))
    where
      go :
          (o : Option Bytes)
          → stored_payload a e.sequence db.mutation_journal ≡ o
          → Outcome a e db (apply_unless_stored sha256 replay io a e db o)
      go none h =
          unfold apply_unless_stored in
          after-Outcome io.begin "begin apply tx" a e db _ (transaction-Outcome io a e db _ h refl)
      go (some p) h =
          unfold apply_unless_stored in
          digests (list_beq (sha256 p) (sha256 e.payload)) (list_beq_iff _ _).0
        where
          digests :
              (b : Bool)
              → (b ≡ true → sha256 p ≡ sha256 e.payload)
              → Outcome a e db (
                  if not b
                  then (
                    err (
                        replication
                          (at_sequence "replay payload mismatch for sequence" e.sequence)),
                    db,
                  )
                  else (ok (already_applied e.sequence), db))
          digests true same = seen p h (same refl)
          digests false same = failed _

  pub Outcome-IsStored :
      (a : ReplicaApplier) (e : JournalPayload) (db : ReplicaDatabase M) (r : Applied M)
      → Outcome a e db r
      → {o : ApplyOutcome} → r.0 ≡ ok o
      → IsStored sha256 a e r.1
  Outcome-IsStored a e db r (failed x) h = cc
  Outcome-IsStored a e db r (seen p found same) h = record {
    stored = p;
    found = found;
    same = same;
  }
  Outcome-IsStored a e db r (committed m fresh k) h = record {
    stored = e.payload;
    found = stored-new a e db.mutation_journal fresh;
    same = refl;
  }

  -- What was stored stays stored, whatever is applied next.
  pub IsStored-kept :
      (a b : ReplicaApplier) (e f : JournalPayload) (db : ReplicaDatabase M) (r : Applied M)
      → Outcome b f db r
      → IsStored sha256 a e db
      → IsStored sha256 a e r.1
  IsStored-kept a b e f db r (failed x) s = s
  IsStored-kept a b e f db r (seen p found same) s = s
  IsStored-kept a b e f db r (committed m fresh k) s = record {
    stored = s.stored;
    found = stored-append a e.sequence db.mutation_journal (row_of b f ∷ []) s.found;
    same = s.same;
  }

  -- An entry that is stored is not applied again, and nothing changes.
  pub apply_entry-stored :
      (io : Io) (a : ReplicaApplier) (e : JournalPayload) (db : ReplicaDatabase M)
      → io.open_connection ≡ none
      → io.check_applied ≡ none
      → IsStored sha256 a e db
      → apply_entry sha256 replay io a e db ≡ (ok (already_applied e.sequence), db)
  unfolding apply_entry apply_unless_stored
  apply_entry-stored io a e db opens checks s =
      simp (
        opens,
        checks,
        s.found,
        s.same,
        (list_beq_iff (sha256 e.payload) (sha256 e.payload)).1 refl,
      )

-- One application that the program makes: its replay, what the database does, for whom, and the entry.
pub record Application {ℓ} (M : Type ℓ) : Type ℓ where
  pub replay : M → Result MnemesError M
  pub io : Io
  pub applier : ReplicaApplier
  pub entry : JournalPayload

module _ {ℓ} {M : Type ℓ} (sha256 : Bytes → Bytes) where
  -- Applications one after the other, each with whatever outcome.
  unfoldable pub run_applications : List (Application M) → ReplicaDatabase M → ReplicaDatabase M
  run_applications [] db = db
  run_applications (x ∷ xs) db =
      run_applications xs (apply_entry sha256 x.replay x.io x.applier x.entry db).1

  -- Whoever applies next, what was stored for one applier stays stored for it.
  run-IsStored :
      (xs : List (Application M)) (a : ReplicaApplier) (e : JournalPayload) (db : ReplicaDatabase M)
      → IsStored sha256 a e db
      → IsStored sha256 a e (run_applications xs db)
  unfolding run_applications
  run-IsStored [] a e db s = s
  run-IsStored (x ∷ xs) a e db s = run-IsStored xs a e _ (
      IsStored-kept sha256 x.replay a x.applier e x.entry db _
        (apply_entry-Outcome sha256 x.replay x.io x.applier x.entry db) s)

  -- After an application of an entry that returned success, and whatever applications follow it, of any
  -- entries, for any device and store, and with any failures, a further application of the entry, with
  -- any replay, returns that it was applied already and changes nothing, as long as the database can be
  -- opened and its journal read for it.
  pub apply_entry_once :
      (replay again : M → Result MnemesError M) (io io' : Io) (a : ReplicaApplier)
      (e : JournalPayload) (db : ReplicaDatabase M) (between : List (Application M))
      {o : ApplyOutcome}
      → (apply_entry sha256 replay io a e db).0 ≡ ok o
      → io'.open_connection ≡ none
      → io'.check_applied ≡ none
      → let later = run_applications between (apply_entry sha256 replay io a e db).1 in
        apply_entry sha256 again io' a e later ≡ (ok (already_applied e.sequence), later)
  apply_entry_once replay again io io' a e db between done opens checks =
      let first = apply_entry sha256 replay io a e db in
      let s =
        Outcome-IsStored sha256 replay a e db first (apply_entry-Outcome sha256 replay io a e db)
          done in
      apply_entry-stored sha256 again io' a e _ opens checks (run-IsStored between a e first.1 s)
