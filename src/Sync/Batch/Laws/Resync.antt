-- ===== src/Sync/Batch/Laws/Resync.antt =====
-- src/sync.rs: a batch that went through changes nothing when it comes again.
use mnemes.Prelude.{
  ℕ, suc, ◌+◌, ◌≡◌, refl, ap, ◌∙◌, none, List, [], ◌∷◌, arith, length, length-append, All, Result,
  ok, err,
}
use mnemes.Prelude.Bytes.{Bytes}
use mnemes.Prelude.Text.{Text}
use mnemes.Prelude.Int.{ℤ}
use mnemes.Error.{MnemesError}
use mnemes.Sync.Replica.{ReplicaDatabase, Io, ReplicaApplier, ApplyOutcome, JournalPayload, Applied}
use mnemes.Sync.Replica.Laws.{
  IsStored, IsStored-kept, Outcome-IsStored, apply_entry-Outcome, apply_entry-stored,
}
use mnemes.Sync.Batch.{Counts, no_counts, count, dispatch_entry, apply_all}

-- Each call to open the replica and to look up a row succeeds.
pub record CanRead (io : ℕ → Io) : Type 0 where
  pub opens : (n : ℕ) → (io n).open_connection ≡ none
  pub checks : (n : ℕ) → (io n).check_applied ≡ none

module _ {ℓ} {M : Type ℓ} (sha256 : Bytes → Bytes)
    (dispatch : Text → Bytes → M → Result MnemesError M) where
  kept :
      (io : ℕ → Io) (a : ReplicaApplier) (n : ℕ) (es : List JournalPayload) (c : Counts)
      (e : JournalPayload) (db : ReplicaDatabase M)
      → IsStored sha256 a e db
      → IsStored sha256 a e (apply_all sha256 dispatch io a n es c db).1
  unfolding apply_all
  kept io a n [] c e db s = s
  kept io a n (f ∷ es) c e db s =
      let step = dispatch_entry sha256 dispatch (io n) a f db in
      kept io a (suc n) es (count f.sequence step.0 c) e step.1 (
        IsStored-kept sha256 (dispatch f.operation_kind f.payload) a a e f db step
          (apply_entry-Outcome sha256 (dispatch f.operation_kind f.payload) (io n) a f db) s)

  no_error :
      (s : ℤ) (r : Result MnemesError ApplyOutcome) (c : Counts)
      → length (count s r c).errors ≡ 0
      → ((o : ApplyOutcome) × (r ≡ ok o)) × (length c.errors ≡ 0)
  no_error s (ok o) c h = ((o, refl), h)
  no_error s (err e) c h = absurd (omega (arith, length-append c.errors _))

  all-IsStored :
      (io : ℕ → Io) (a : ReplicaApplier) (n : ℕ) (es : List JournalPayload) (c : Counts)
      (db : ReplicaDatabase M)
      → length (apply_all sha256 dispatch io a n es c db).0.errors ≡ 0
      → All (λ e. IsStored sha256 a e (apply_all sha256 dispatch io a n es c db).1) es
        × (length c.errors ≡ 0)
  unfolding apply_all
  all-IsStored io a n [] c db h = (tt, h)
  all-IsStored io a n (e ∷ es) c db h =
      let step = dispatch_entry sha256 dispatch (io n) a e db in
      let rest = all-IsStored io a (suc n) es (count e.sequence step.0 c) step.1 h in
      let now = no_error e.sequence step.0 c rest.1 in
      (
        (
          kept io a (suc n) es (count e.sequence step.0 c) e step.1 (
              Outcome-IsStored sha256 (dispatch e.operation_kind e.payload) a e db step
                (apply_entry-Outcome sha256 (dispatch e.operation_kind e.payload) (io n) a e db)
                now.0.1),
          rest.0,
        ),
        now.1,
      )

  changes_nothing :
      (io : ℕ → Io) (a : ReplicaApplier) (n : ℕ) (es : List JournalPayload) (c : Counts)
      (db : ReplicaDatabase M)
      → CanRead io
      → All (λ e. IsStored sha256 a e db) es
      → apply_all sha256 dispatch io a n es c db ≡ (record c { synced = c.synced + length es }, db)
  unfolding apply_all
  changes_nothing io a n [] c db reads h =
      let e : c.synced ≡ c.synced + 0 = omega arith in ap (λ k. (record c { synced = k }, db)) e
  changes_nothing io a n (e ∷ es) c db reads h =
      let seen =
        apply_entry-stored sha256 (dispatch e.operation_kind e.payload) (io n) a e db
          (reads.opens n) (reads.checks n) h.0 in
      let more : (c.synced + 1) + length es ≡ c.synced + suc (length es) = omega arith in
      ap (λ (r : Applied M). apply_all sha256 dispatch io a (suc n) es (count e.sequence r.0 c) r.1)
        seen
      ∙ changes_nothing io a (suc n) es (record c { synced = c.synced + 1 }) db reads h.1
      ∙ ap (λ k. (record c { synced = k }, db)) more

  -- When the loop of a batch over its entries ends without an error, a second run over the same entries, with whatever
  -- database calls as long as it can read, counts all of them and leaves the replica as it is.
  pub resync_changes_nothing :
      (io io' : ℕ → Io) (a : ReplicaApplier) (es : List JournalPayload) (db : ReplicaDatabase M)
      → length (apply_all sha256 dispatch io a 0 es no_counts db).0.errors ≡ 0
      → CanRead io'
      → apply_all sha256 dispatch io' a 0 es no_counts
          (apply_all sha256 dispatch io a 0 es no_counts db).1
        ≡ (
          record { synced = 0 + length es; errors = [] },
          (apply_all sha256 dispatch io a 0 es no_counts db).1,
        )
  resync_changes_nothing io io' a es db clean reads =
      changes_nothing io' a 0 es no_counts _ reads (all-IsStored io a 0 es no_counts db clean).0
