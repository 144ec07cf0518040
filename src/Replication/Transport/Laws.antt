-- ===== src/Replication/Transport/Laws.antt =====
-- src/replication/fact_create.rs and fact_supersede.rs: what the test of the text fields accepts.
use mnemes.Prelude.{
  ℕ, zero, suc, String, ◌<◌, ◌≤◌, ◌≡◌, refl, ◌↔◌, Bool, true, false, not, ◌!=◌, list_eq, ◌||◌, List,
  [], ◌∷◌, arith, length, is_empty, any, All, ltb, list_beq, list_beq_iff, ok, then_iff, reject_if,
}
use mnemes.Prelude.Int.{ℤ, pos, negsuc, ltb_ℤ}
use mnemes.Prelude.Text.{Text, as_bytes, trim, is_control}
use mnemes.Replication.Error.{
  ReplicationError, empty_field, pre_collision_validation, about, field_exceeds_max_length,
}
use mnemes.Replication.Transport.{check_text}

-- A text field of a batch: trimmed and non-empty, no control character, and at most `max` bytes.
pub record IsBatchText (max : ℕ) (t : Text) : Type 0 where
  pub present : 0 < length t
  pub trimmed : trim t ≡ t
  pub printable : All (λ c. is_control c ≡ false) t
  pub short : length (as_bytes t) ≤ max

any_iff : (p : ℕ → Bool) (t : Text) → (any p t ≡ false) ↔ All (λ c. p c ≡ false) t
any_iff p [] = (λ h. tt, λ h. refl)
any_iff p (c ∷ t) = ground (arith, any_iff p t)

present_iff :
    (t : Text) (x : ReplicationError) → (reject_if (is_empty t) x ≡ ok tt) ↔ (0 < length t)
present_iff [] x = (λ h. cc, λ h. absurd (omega arith))
present_iff (c ∷ t) x = (λ h. omega arith, λ h. refl)

clean_iff :
    (t : Text) (x : ReplicationError)
    → (reject_if (trim t != t || any is_control t) x ≡ ok tt)
      ↔ ((trim t ≡ t) × All (λ c. is_control c ≡ false) t)
clean_iff t x =
    go (list_beq (trim t) t) (any is_control t) (list_beq_iff (trim t) t) (any_iff is_control t)
  where
    go :
        (same dirty : Bool)
        → (same ≡ true) ↔ (trim t ≡ t)
        → (dirty ≡ false) ↔ All (λ c. is_control c ≡ false) t
        → (reject_if (not same || dirty) x ≡ ok tt)
          ↔ ((trim t ≡ t) × All (λ c. is_control c ≡ false) t)
    go true true s d = (λ h. cc, λ h. cc (d.1 h.1))
    go true false s d = (λ h. (s.0 refl, d.0 refl), λ h. refl)
    go false dirty s d = (λ h. cc, λ h. cc (s.1 h.0))

short_iff : (n max : ℕ) (x : ReplicationError) → (reject_if (ltb max n) x ≡ ok tt) ↔ (n ≤ max)
short_iff n max x = ground arith

-- The test passes exactly when every field is such a text.
pub check_text_iff :
    (profile : String) (fs : List (String × Text × ℕ))
    → (check_text profile fs ≡ ok tt) ↔ All (λ f. IsBatchText f.2 f.1) fs
unfolding check_text
check_text_iff profile [] = (λ h. tt, λ h. refl)
check_text_iff profile ((field, value, max) ∷ fs) =
    let steps = then_iff _ _ (present_iff value (empty_field field)) (
      then_iff _ _ (clean_iff value (pre_collision_validation (about profile field))) (
        then_iff _ (check_text profile fs)
          (short_iff (length (as_bytes value)) max
            (field_exceeds_max_length field (length (as_bytes value)) max))
          (check_text_iff profile fs))) in
    (
      λ h.
          let (present, (clean, (short, rest))) = steps.0 h in
          (
            record { present = present; trimmed = clean.0; printable = clean.1; short = short },
            rest,
          ),
      λ (f, rest). steps.1 (f.present, ((f.trimmed, f.printable), (f.short, rest))),
    )

-- A sequence starts at one.
pub positive_iff :
    (z : ℤ) (x : ReplicationError)
    → (reject_if (ltb_ℤ z (pos 1)) x ≡ ok tt) ↔ ((n : ℕ) × (z ≡ pos (suc n)))
positive_iff (pos n) x = (λ h. at n h, λ (m, e). ground arith)
  where
    at : (n : ℕ) → reject_if (ltb n 1) x ≡ ok tt → (m : ℕ) × (pos n ≡ pos (suc m))
    at zero h = cc
    at (suc m) h = (m, refl)
positive_iff (negsuc n) x = (λ h. cc, λ (m, e). cc)
