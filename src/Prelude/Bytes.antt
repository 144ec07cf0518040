-- ===== src/Prelude/Bytes.antt =====
-- `to_be_bytes`: a number as `w` bytes, the most significant first.
use native.Mathlib.Nat.{pow-suc}
use mathlib.Core.Path.{◌≡◌, refl}
use mathlib.Core.List.{List, [], ◌∷◌, ◌++◌}
use Prim.Native.Nat.{ℕ, zero, suc, ◌*◌, ◌/◌, ◌%◌, ◌^◌, ◌<◌}
use native.Mathlib.Omega.{arith}
use mnemes.Prelude.Lists.{length, length-append, append_cancel}

abbrev pub Bytes : Type 0
Bytes = List ℕ

unfoldable pub to_be_bytes : ℕ → ℕ → Bytes
to_be_bytes zero n = []
to_be_bytes (suc w) n = to_be_bytes w (n / 256) ++ (n % 256) ∷ []

pub length-to_be_bytes : (w n : ℕ) → length (to_be_bytes w n) ≡ w
unfolding to_be_bytes
length-to_be_bytes zero n = refl
length-to_be_bytes (suc w) n = omega (
  arith,
  length-append (to_be_bytes w (n / 256)) ((n % 256) ∷ []),
  length-to_be_bytes w (n / 256),
)

last_injective : {a b : ℕ} → ◌≡◌ {A = Bytes} (a ∷ []) (b ∷ []) → a ≡ b
last_injective h = cc

-- Numbers in range are told apart by their bytes.
pub to_be_bytes_injective :
    (w a b : ℕ) → a < 256 ^ w → b < 256 ^ w → to_be_bytes w a ≡ to_be_bytes w b → a ≡ b
unfolding to_be_bytes
to_be_bytes_injective zero a b ha hb h = omega arith
to_be_bytes_injective (suc w) a b ha hb h =
    let split =
      append_cancel (to_be_bytes w (a / 256)) (to_be_bytes w (b / 256))
        (omega (arith, length-to_be_bytes w (a / 256), length-to_be_bytes w (b / 256))) h in
    let ha' : a < 256 ^ w * 256 = rw pow-suc at ha in
    let hb' : b < 256 ^ w * 256 = rw pow-suc at hb in
    let high : a / 256 ≡ b / 256 =
      to_be_bytes_injective w (a / 256) (b / 256) (omega arith) (omega arith) split.0 in
    let low : a % 256 ≡ b % 256 = last_injective split.1 in omega arith
