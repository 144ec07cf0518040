-- ===== src/Prelude/Results.antt =====
-- Rust's `Result`: an early `return Err(e)` or `?` ends a `do` block.
use mathlib.Core.Path.{◌≡◌, refl, ap}
use mathlib.Core.Logic.{◌↔◌, ◌⊎◌, inl, inr}
use mathlib.Core.Bool.{Bool, true, false}
use mathlib.Core.Option.{Option, none, some}
use mathlib.Core.List.{List, [], ◌∷◌}
use mnemes.Prelude.Lists.{any, Any}
use mnemes.Prelude.Tests.{PartialEq, ◌!=◌, if◌then◌else◌}
use mathlib.Core.Bool.{not, ◌||◌, ◌&&◌}

pub data Result {ℓ κ} (E : Type ℓ) (A : Type κ) : Type (ℓ ⊔ κ) where
  err : E → Result E A
  ok : A → Result E A

infixl 5 ◌>>=◌ ◌>>◌
abbrev pub ◌>>=◌ {ℓ κ μ} :
    {E : Type ℓ} {A : Type κ} {B : Type μ} → Result E A → (A → Result E B) → Result E B
err e >>= next = err e
ok a >>= next = next a

abbrev pub ◌>>◌ {ℓ κ} : {E : Type ℓ} {B : Type κ} → Result E (Unit {0}) → Result E B → Result E B
m >> k = m >>= λ _. k

-- `if test { return Err(e); }`
abbrev pub reject_if {ℓ} : {E : Type ℓ} → Bool → E → Result E (Unit {0})
reject_if true e = err e
reject_if false e = ok tt

abbrev pub map_err {ℓ κ μ} :
    {E : Type ℓ} {F : Type κ} {A : Type μ} → (E → F) → Result E A → Result F A
map_err f (ok a) = ok a
map_err f (err e) = err (f e)

abbrev pub ok_or {ℓ κ} : {E : Type ℓ} {A : Type κ} → Option A → E → Result E A
ok_or none e = err e
ok_or (some a) e = ok a

-- A chain that succeeds has a first step that succeeds.
pub >>=-eq-ok {ℓ κ μ} :
    {E : Type ℓ} {A : Type κ} {B : Type μ} (step : Result E A) (next : A → Result E B) {last : B}
    → (step >>= next) ≡ ok last
    → (value : A) × (step ≡ ok value) × (next value ≡ ok last)
>>=-eq-ok (err e) next done = cc
>>=-eq-ok (ok value) next done = (value, refl, done)

pub reject_if_iff {ℓ} : {E : Type ℓ} (b : Bool) (e : E) → (reject_if b e ≡ ok tt) ↔ (b ≡ false)
reject_if_iff true e = (λ h. cc, λ h. cc)
reject_if_iff false e = (λ h. refl, λ h. refl)

pub then_iff {ℓ κ} :
    {E : Type ℓ} {A : Type κ} {a : A} {P Q : Type 0} (m : Result E (Unit {0})) (k : Result E A)
    → (m ≡ ok tt) ↔ P
    → (k ≡ ok a) ↔ Q
    → ((m >> k) ≡ ok a) ↔ (P × Q)
then_iff (ok tt) k p q = (λ h. (p.0 refl, q.0 h), λ h. q.1 h.1)
then_iff (err e) k p q = (λ h. cc, λ h. cc (p.1 h.0))

-- `if a != b { return Err(x); }`
pub reject_ne_iff {ℓ κ} :
    {A : Type ℓ} {E : Type κ} ⦃derived : PartialEq A⦄ (a b : A) (x : E)
    → (reject_if (a != b) x ≡ ok tt) ↔ (a ≡ b)
reject_ne_iff ⦃derived⦄ a b x = go (derived.eq a b) (derived.eq_exact a b)
  where
    go : (t : Bool) → (t ≡ true) ↔ (a ≡ b) → (reject_if (not t) x ≡ ok tt) ↔ (a ≡ b)
    go true h = (λ e. h.0 refl, λ e. refl)
    go false h = (λ e. cc, λ e. cc (h.1 e))

-- An error comes from the first test, or from what follows it.
pub reject_error {ℓ κ} :
    {E : Type ℓ} {B : Type κ} (b : Bool) (x : E) (k : Result E B) {y : E}
    → (reject_if b x >> k) ≡ err y
    → ((b ≡ true) × (x ≡ y)) ⊎ ((b ≡ false) × (k ≡ err y))
reject_error {E} {B} true x k h = inl (refl, err-injective h)
  where
    err-injective : {y : E} → ◌≡◌ {A = Result E B} (err x) (err y) → x ≡ y
    err-injective e = cc
reject_error {E} {B} false x k h = inr (refl, h)

-- Both sides of an `||` are refused together.
pub or_iff :
    {P Q : Type 0} (a b : Bool) → (a ≡ false) ↔ P → (b ≡ false) ↔ Q → ((a || b) ≡ false) ↔ (P × Q)
or_iff true b p q = (λ h. cc, λ h. p.1 h.0)
or_iff false b p q = (λ h. (p.0 refl, q.0 h), λ h. q.1 h.1)

pub ne_iff {ℓ} : {A : Type ℓ} ⦃derived : PartialEq A⦄ (a b : A) → ((a != b) ≡ false) ↔ (a ≡ b)
ne_iff ⦃derived⦄ a b = go (derived.eq a b) (derived.eq_exact a b)
  where
    go : (t : Bool) → (t ≡ true) ↔ (a ≡ b) → (not t ≡ false) ↔ (a ≡ b)
    go true h = (λ e. h.0 refl, λ e. refl)
    go false h = (λ e. cc, λ e. cc (h.1 e))

-- `if test { return Err(e); }`, where what the test excludes is known.
pub reject_unless_iff {ℓ} :
    {E : Type ℓ} {P : Type 0} (b : Bool) (e : E) → (b ≡ false) ↔ P → (reject_if b e ≡ ok tt) ↔ P
reject_unless_iff true e p = (λ h. cc, λ h. cc (p.1 h))
reject_unless_iff false e p = (λ h. p.0 refl, λ h. refl)

pub and_iff :
    {P Q : Type 0} (a b : Bool) → (a ≡ true) ↔ P → (b ≡ true) ↔ Q → ((a && b) ≡ true) ↔ (P × Q)
and_iff true b p q = (λ h. (p.0 refl, q.0 h), λ h. q.1 h.1)
and_iff false b p q = (λ h. cc, λ h. cc (p.1 h.0))

-- `if test { Ok } else { Err }`
pub accept_iff {ℓ} :
    {E : Type ℓ} {P : Type 0} (b : Bool) (e : E)
    → (b ≡ true) ↔ P
    → (◌≡◌ {A = Result E (Unit {0})} (if b then ok tt else err e) (ok tt)) ↔ P
accept_iff true e p = (λ h. p.0 refl, λ h. refl)
accept_iff false e p = (λ h. cc, λ h. cc (p.1 h))

pub either_iff :
    {P Q : Type 0} (a b : Bool) → (a ≡ true) ↔ P → (b ≡ true) ↔ Q → ((a || b) ≡ true) ↔ (P ⊎ Q)
either_iff true b p q = (λ h. inl (p.0 refl), λ h. refl)
either_iff false b p q = (λ h. inr (q.0 h), λ h. elim h [ inl x ↦ cc (p.1 x) | inr y ↦ q.1 y ])

pub any_iff {ℓ} :
    {A : Type ℓ} {P : A → Type 0} (test : A → Bool)
    → ((x : A) → (test x ≡ true) ↔ P x)
    → (xs : List A) → (any test xs ≡ true) ↔ Any P xs
any_iff test exact [] = (λ h. cc, λ h. elim h [ ])
any_iff test exact (x ∷ xs) = either_iff (test x) (any test xs) (exact x) (any_iff test exact xs)

pub ok_injective {ℓ κ} :
    {E : Type ℓ} {A : Type κ} {a b : A} → ◌≡◌ {A = Result E A} (ok a) (ok b) → a ≡ b
ok_injective {E} {A} {a} h = ap value h
  where
    value : Result E A → A
    value (ok x) = x
    value (err e) = a
