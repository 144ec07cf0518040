-- ===== src/Prelude/Int.antt =====
-- `i64`: signed integers, with and without the wrap, under the library's names (its ℤ stands on the unary
-- ℕ).
use Prim.Native.Nat.{ℕ, zero, suc, ◌+◌, ◌-◌, ◌^◌, ◌<◌}
use mathlib.Core.Path.{◌≡◌, refl, ap, ◌∙◌, subst}
use mathlib.Core.Logic.{◌↔◌, inl, inr}
use mathlib.Core.Bool.{Bool, true, false}
use native.Mathlib.Omega.{arith}
use mnemes.Prelude.Tests.{nat_beq, ltb, PartialEq, Bool-cases, if◌then◌else◌}

-- `negsuc n` is -(n + 1).
pub data ℤ : Type 0 where
  pos : ℕ → ℤ
  negsuc : ℕ → ℤ

abbrev pub int_beq : ℤ → ℤ → Bool
int_beq (pos a) (pos b) = nat_beq a b
int_beq (negsuc a) (negsuc b) = nat_beq a b
int_beq _ _ = false

pub int_beq_iff : (a b : ℤ) → (int_beq a b ≡ true) ↔ (a ≡ b)
int_beq_iff a b = ground arith

instance abbrev pub int_eq : PartialEq ℤ
int_eq = record { eq = int_beq; eq_exact = int_beq_iff }

-- `n + 1` of the integers.
abbrev pub next : ℤ → ℤ
next (pos n) = pos (suc n)
next (negsuc zero) = pos 0
next (negsuc (suc n)) = negsuc n

-- `n + k` of the integers, for a count `k`.
abbrev pub add_count : ℤ → ℕ → ℤ
add_count n zero = n
add_count n (suc k) = add_count (next n) k

-- `n + 1` of an `i64`, which wraps at the largest one.
unfoldable pub wrapping_next : ℤ → ℤ
wrapping_next n = if int_beq n (pos (2 ^ 63 - 1)) then negsuc (2 ^ 63 - 1) else next n

-- `n + k as i64` of an `i64` and a `usize`: the cast and the sum wrap.
unfoldable pub wrapping_add : ℤ → ℕ → ℤ
wrapping_add n zero = n
wrapping_add n (suc k) = wrapping_add (wrapping_next n) k

-- `n as i64` of a `u64` or a `usize`.
unfoldable pub as_i64 : ℕ → ℤ
as_i64 n = if ltb n (2 ^ 63) then pos n else negsuc (2 ^ 64 - (n + 1))

abbrev pub ltb_ℤ : ℤ → ℤ → Bool
ltb_ℤ (pos a) (pos b) = ltb a b
ltb_ℤ (pos a) (negsuc b) = false
ltb_ℤ (negsuc a) (pos b) = true
ltb_ℤ (negsuc a) (negsuc b) = ltb b a

-- The range of `i64`.
abbrev pub IsI64 : ℤ → Type 0
IsI64 (pos n) = n < 2 ^ 63
IsI64 (negsuc n) = n < 2 ^ 63

-- The 64 bits of an `i64` in two's complement.
unfoldable pub i64_bits : ℤ → ℕ
i64_bits (pos n) = n
i64_bits (negsuc n) = 2 ^ 64 - (n + 1)

pub i64_bits_injective : (a b : ℤ) → IsI64 a → IsI64 b → i64_bits a ≡ i64_bits b → a ≡ b
unfolding i64_bits
i64_bits_injective (pos a) (pos b) ha hb h = ground arith
i64_bits_injective (pos a) (negsuc b) ha hb h = absurd (omega arith)
i64_bits_injective (negsuc a) (pos b) ha hb h = absurd (omega arith)
i64_bits_injective (negsuc a) (negsuc b) ha hb h = let e : a ≡ b = omega arith in ground arith

pub i64_bits-lt : (a : ℤ) → IsI64 a → i64_bits a < 256 ^ 8
unfolding i64_bits
i64_bits-lt (pos a) h = omega arith
i64_bits-lt (negsuc a) h = omega arith

add_count-pos : (n k : ℕ) → add_count (pos n) k ≡ pos (k + n)
add_count-pos n zero = let e : n ≡ 0 + n = omega arith in ap pos e
add_count-pos n (suc k) =
    let e : k + suc n ≡ suc k + n = omega arith in add_count-pos (suc n) k ∙ ap pos e

next-IsI64 : (n : ℤ) → IsI64 n → int_beq n (pos (2 ^ 63 - 1)) ≡ false → IsI64 (next n)
next-IsI64 (pos n) h e = ground arith
next-IsI64 (negsuc zero) h e = omega arith
next-IsI64 (negsuc (suc n)) h e = omega arith

-- Where a further sum is in range, one step does not wrap.
pub wrapping_next-eq-next :
    (n : ℤ) (k : ℕ)
    → IsI64 n
    → IsI64 (add_count (next n) k)
    → (wrapping_next n ≡ next n) × IsI64 (next n)
unfolding wrapping_next
wrapping_next-eq-next n k h room = elim (Bool-cases (int_beq n (pos (2 ^ 63 - 1)))) [
  | inl e ↦ absurd (full n e room)
  | inr e ↦ (rw e refl, next-IsI64 n h e)
]
  where
    full : (n : ℤ) → int_beq n (pos (2 ^ 63 - 1)) ≡ true → IsI64 (add_count (next n) k) → ⊥
    full (pos n) e room = let room' = subst IsI64 (add_count-pos (suc n) k) room in ground arith
    full (negsuc n) e room = cc

-- A sum that is in range does not wrap.
pub wrapping_add-eq-add_count :
    (n : ℤ) (k : ℕ) → IsI64 n → IsI64 (add_count n k) → wrapping_add n k ≡ add_count n k
unfolding wrapping_add
wrapping_add-eq-add_count n zero h room = refl
wrapping_add-eq-add_count n (suc k) h room =
    let (e, more) = wrapping_next-eq-next n k h room in
    rw e (wrapping_add-eq-add_count (next n) k more room)

pub wrapping_add-add :
    (n : ℤ) (a b : ℕ) → wrapping_add (wrapping_add n a) b ≡ wrapping_add n (a + b)
unfolding wrapping_add
wrapping_add-add n zero b = let e : b ≡ 0 + b = omega arith in ap (wrapping_add n) e
wrapping_add-add n (suc a) b =
    let e : suc (a + b) ≡ suc a + b = omega arith in
    wrapping_add-add (wrapping_next n) a b ∙ ap (wrapping_add n) e
