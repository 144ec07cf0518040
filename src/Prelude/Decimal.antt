-- ===== src/Prelude/Decimal.antt =====
-- `to_string` of an unsigned integer: its decimal digits.
use Prim.Native.Nat.{ℕ, zero, suc, ◌+◌, ◌*◌, ◌/◌, ◌-◌, ◌%◌}
use mathlib.Core.Path.{◌≡◌, refl, sym, ap, ◌∙◌}
use mathlib.Core.Logic.{inl, inr}
use mathlib.Core.List.{[], ◌∷◌, ◌++◌}
use native.Mathlib.Omega.{arith}
use mnemes.Prelude.Tests.{Bool-cases, ltb, if◌then◌else◌}
use mnemes.Prelude.Text.{Text}

digits : ℕ → ℕ → Text
digits zero n = (48 + n) ∷ []
digits (suc fuel) n =
    let rest = digits fuel (n / 10) ++ ((48 + n % 10) ∷ []) in
    if ltb n 10 then (48 + n) ∷ [] else rest

-- The number itself is fuel enough.
unfoldable pub decimal : ℕ → Text
unfolding digits
decimal n = digits n n

value : ℕ → Text → ℕ
value acc [] = acc
value acc (d ∷ ds) = value (acc * 10 + (d - 48)) ds

value-append :
    (acc : ℕ) (xs : Text) (d : ℕ) → value acc (xs ++ (d ∷ [])) ≡ value acc xs * 10 + (d - 48)
unfolding value
value-append acc [] d = refl
value-append acc (x ∷ xs) d = value-append (acc * 10 + (x - 48)) xs d

value-digits : (fuel n : ℕ) → value 0 (digits fuel n) ≡ n
unfolding digits value
value-digits zero n = omega arith
value-digits (suc fuel) n = elim (Bool-cases (ltb n 10)) [
  | inl small ↦ rw small (omega arith)
  | inr large ↦ rw large (
      omega
        (arith, value-append 0 (digits fuel (n / 10)) (48 + n % 10), value-digits fuel (n / 10)))
]

pub decimal_injective : (m n : ℕ) → decimal m ≡ decimal n → m ≡ n
unfolding decimal
decimal_injective m n h = sym (value-digits m m) ∙ ap (value 0) h ∙ value-digits n n
