-- ===== src/Prelude/Text.antt =====
-- Rust's strings: a `str` is its list of `char`s, given by their code points.
use mathlib.Core.Path.{◌≡◌, refl, sym}
use mathlib.Core.List.{List, [], ◌∷◌, ◌++◌}
use Prim.Native.Char.{code}
use Prim.Native.String.{String}
use mathlib.Core.Bool.{Bool, true, false, ◌||◌, ◌&&◌}
use Prim.Native.Nat.{ℕ, ◌+◌, ◌/◌, ◌%◌, ◌<◌}
use native.Mathlib.Omega.{arith}
use mnemes.Prelude.Tests.{ltb, leb, nat_beq, if◌then◌else◌}
use mathlib.Core.Logic.{◌↔◌, inr}
use mnemes.Prelude.Lists.{is_empty, All, Any}
use mnemes.Prelude.Bytes.{Bytes}

abbrev pub Text : Type 0
Text = List ℕ

-- A literal of the source.
abbrev pub text : String → Text
text String.[] = []
text (String.◌∷◌ c s) = code c ∷ text s

-- One `char` in UTF-8.
encode_utf8 : ℕ → Bytes
encode_utf8 c =
    if ltb c 0x80
    then c ∷ []
    else if ltb c 0x800
    then (0xc0 + c / 64) ∷ (0x80 + c % 64) ∷ []
    else if ltb c 0x10000
    then (0xe0 + c / 4096) ∷ (0x80 + c / 64 % 64) ∷ (0x80 + c % 64) ∷ []
    else (0xf0 + c / 262144) ∷ (0x80 + c / 4096 % 64) ∷ (0x80 + c / 64 % 64) ∷ (0x80 + c % 64) ∷ []

-- `str::as_bytes`.
unfoldable pub as_bytes : Text → Bytes
unfolding encode_utf8
as_bytes [] = []
as_bytes (c ∷ s) = encode_utf8 c ++ as_bytes s

-- `char` holds no number past 0x10ffff.
abbrev pub IsText : Text → Type 0
IsText = All (λ c. c < 0x110000)

encode_utf8_cancel :
    (c d : ℕ) (s t : Bytes)
    → c < 0x110000
    → d < 0x110000
    → encode_utf8 c ++ s ≡ encode_utf8 d ++ t
    → (c ≡ d) × (s ≡ t)
unfolding encode_utf8
encode_utf8_cancel c d s t hc hd h = ground arith

encode_utf8_nonempty : (c : ℕ) (s : Bytes) → encode_utf8 c ++ s ≡ [] → ⊥
unfolding encode_utf8
encode_utf8_nonempty c s h = ground arith

pub as_bytes_injective : (s t : Text) → IsText s → IsText t → as_bytes s ≡ as_bytes t → s ≡ t
unfolding as_bytes
as_bytes_injective [] [] hs ht h = refl
as_bytes_injective [] (d ∷ t) hs ht h = absurd (encode_utf8_nonempty d (as_bytes t) (sym h))
as_bytes_injective (c ∷ s) [] hs ht h = absurd (encode_utf8_nonempty c (as_bytes s) h)
as_bytes_injective (c ∷ s) (d ∷ t) hs ht h =
    let heads = encode_utf8_cancel c d (as_bytes s) (as_bytes t) hs.0 ht.0 h in
    let tails = as_bytes_injective s t hs.1 ht.1 heads.1 in cc

-- `char::is_control`: the general category Cc.
abbrev pub is_control : ℕ → Bool
is_control c = ltb c 0x20 || (leb 0x7f c && leb c 0x9f)

-- `char::is_whitespace`: the property White_Space.
unfoldable pub is_whitespace : ℕ → Bool
is_whitespace c =
    (leb 9 c && leb c 13)
    || nat_beq c 0x20
    || nat_beq c 0x85
    || nat_beq c 0xa0
    || nat_beq c 0x1680
    || (leb 0x2000 c && leb c 0x200a)
    || nat_beq c 0x2028
    || nat_beq c 0x2029
    || nat_beq c 0x202f
    || nat_beq c 0x205f
    || nat_beq c 0x3000

trim_start : Text → Text
trim_start [] = []
trim_start (c ∷ s) = if is_whitespace c then trim_start s else c ∷ s

trim_last : ℕ → Text → Text
trim_last c [] = if is_whitespace c then [] else c ∷ []
trim_last c (d ∷ r) = c ∷ d ∷ r

trim_end : Text → Text
unfolding trim_last
trim_end [] = []
trim_end (c ∷ s) = trim_last c (trim_end s)

-- `str::trim`.
unfoldable pub trim : Text → Text
unfolding trim_start trim_end is_whitespace
trim s = trim_end (trim_start s)

-- Some character is no white space.
abbrev pub HasInk : Text → Type 0
HasInk = Any (λ c. is_whitespace c ≡ false)

trim_end-HasInk : (s : Text) → (is_empty (trim_end s) ≡ false) ↔ HasInk s
unfolding trim_end
trim_end-HasInk [] = (λ h. cc, λ h. elim h [ ])
trim_end-HasInk (c ∷ s) = last (trim_end s) (trim_end-HasInk s)
  where
    last :
        (r : Text)
        → (is_empty r ≡ false) ↔ HasInk s
        → (is_empty (trim_last c r) ≡ false) ↔ HasInk (c ∷ s)
    last [] ih = unfold trim_last in ground arith
    last (d ∷ r) ih = unfold trim_last in ground arith

trim_start-HasInk : (s : Text) → HasInk (trim_start s) ↔ HasInk s
unfolding trim_start
trim_start-HasInk [] = (λ h. h, λ h. h)
trim_start-HasInk (c ∷ s) = go (is_whitespace c) refl (trim_start-HasInk s)
  where
    go :
        (b : Bool)
        → is_whitespace c ≡ b
        → HasInk (trim_start s) ↔ HasInk s
        → HasInk (if b then trim_start s else c ∷ s) ↔ HasInk (c ∷ s)
    go true w ih = (λ h. inr (ih.0 h), λ h. ih.1 (ground arith))
    go false w ih = (λ h. h, λ h. h)

-- A trimmed text is empty exactly when it holds white space alone.
pub trim-HasInk : (s : Text) → (is_empty (trim s) ≡ false) ↔ HasInk s
unfolding trim
trim-HasInk s =
    let stops = trim_end-HasInk (trim_start s) in
    let starts = trim_start-HasInk s in (λ h. starts.0 (stops.0 h), λ h. stops.1 (starts.1 h))
