-- ===== src/Sync/Batch/Laws.antt =====
-- src/sync.rs and src/sync_handler.rs: what is exported is contiguous, every entry is counted, and a
-- batch that went through changes nothing when it comes again.
pub mod Resync
use mathlib.Core.Path.{subst}
use mnemes.Prelude.{
  ℕ, zero, ◌+◌, ◌≡◌, refl, sym, ap, ◌∙◌, ◌↔◌, Bool, true, false, not, Option, none, some, List, [],
  ◌∷◌, ◌++◌, length, ◌!=◌, if◌then◌else◌, Result, ok, err, ◌>>=◌, >>=-eq-ok, ok_injective, map_err,
}
use mnemes.Prelude.Bytes.{Bytes}
use mnemes.Prelude.Text.{Text}
use mnemes.Prelude.Int.{
  ℤ, pos, negsuc, int_eq, int_beq, int_beq_iff, next, add_count, wrapping_next, as_i64, IsI64,
  wrapping_next-eq-next,
}
use mnemes.Sync.Replica.{JournalPayload}
use mnemes.Sync.Batch.{
  Prepared, collect, export_device_journal, Counts, SyncResult, dispatch_entry, apply_all,
  sync_batch, sync_exported, entry_payload,
}

-- Sequences without a gap, from the first on.
abbrev pub Contiguous : ℤ → List JournalPayload → Type 0
Contiguous s [] = Unit
Contiguous s (e ∷ es) = (e.sequence ≡ s) × Contiguous (next s) es

abbrev Exported : ℤ → (List JournalPayload × ℤ × Bool) → Type 0
Exported s x = Contiguous s x.0 × (x.1 ≡ add_count s (length x.0))

collect_exports :
    (s : ℤ) (rows : List (Result Text JournalPayload)) {x : List JournalPayload × ℤ × Bool}
    → IsI64 s
    → IsI64 (add_count s (length x.0))
    → collect s rows ≡ ok x
    → Exported s x
unfolding collect
collect_exports s [] in_range room h = subst (Exported s) (ok_injective h) (tt, refl)
collect_exports s (err e ∷ rows) in_range room h = cc
collect_exports s (ok e ∷ rows) {x} in_range room h =
    go (int_beq e.sequence s) (int_beq_iff e.sequence s).0 h
      (λ y in_range' more k. collect_exports (next s) rows in_range' more k)
  where
    go :
        (b : Bool)
        → (b ≡ true → e.sequence ≡ s)
        → (if not b
            then ok ([], s, true)
            else (collect (wrapping_next e.sequence) rows >>= λ (entries, following, has_gap).
                ok (e ∷ entries, following, has_gap)))
          ≡ ok x
        → ((y : List JournalPayload × ℤ × Bool)
            → IsI64 (next s)
            → IsI64 (add_count (next s) (length y.0))
            → collect (next s) rows ≡ ok y
            → Exported (next s) y)
        → Exported s x
    go false same h ih = subst (Exported s) (ok_injective h) (tt, refl)
    go true same h ih =
        let (y, first, last) = >>=-eq-ok (collect (wrapping_next e.sequence) rows) _ h in
        let x_is = ok_injective last in
        let more : IsI64 (add_count (next s) (length y.0)) =
          subst (λ (z : List JournalPayload × ℤ × Bool). IsI64 (add_count s (length z.0)))
            (sym x_is) room in
        let (steps, in_range') = wrapping_next-eq-next s (length y.0) in_range more in
        let first' : collect (next s) rows ≡ ok y =
          subst (λ z. collect z rows ≡ ok y) (ap wrapping_next (same refl) ∙ steps) first in
        let tail = ih y in_range' more first' in
        subst (Exported s) x_is ((same refl, tail.0), tail.1)

-- When an export from an i64 succeeds, and the requested sequence moved by the number of its entries is
-- an i64 too, then its entries start at the requested sequence and have no gap, and the next sequence is
-- the one after them.
pub export-Contiguous :
    (prepared : Prepared) (start : ℤ) (limit : ℕ) {entries : List JournalPayload} {following : ℤ}
    {has_more : Bool}
    → IsI64 start
    → IsI64 (add_count start (length entries))
    → export_device_journal prepared start limit ≡ ok (entries, following, has_more)
    → Contiguous start entries × (following ≡ add_count start (length entries))
unfolding export_device_journal
export-Contiguous prepared start limit {entries} in_range room h =
    let (statement, _, queried) = >>=-eq-ok (map_err _ prepared) _ h in
    let (answer, _, rest) = >>=-eq-ok (map_err _ (statement (as_i64 limit))) _ queried in
    let (x, collected, last) = >>=-eq-ok (collect start answer) _ rest in
    let same = ok_injective last in
    let entries_are : x.0 ≡ entries = ap (λ t. t.0) same in
    let all =
      collect_exports start answer in_range
        (subst (λ es. IsI64 (add_count start (length es))) (sym entries_are) room) collected in
    (
      subst (Contiguous start) entries_are all.0,
      sym (ap (λ t. t.1) same) ∙ all.1 ∙ ap (λ t. add_count start (length t.0)) same,
    )

-- The entries that were counted.
abbrev pub total : Counts → ℕ
total c = c.synced + length c.errors
