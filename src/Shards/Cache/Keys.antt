-- ===== src/Shards/Cache/Keys.antt =====
-- Lists of keys: each key once, and what `retain` and `push_back` do to them.
use mnemes.Prelude.{
  ◌≡◌, ◌≢◌, sym, ◌∙◌, ◌↔◌, ◌⊎◌, inl, inr, Bool-cases, false, List, [], ◌∷◌, ◌++◌, All, Any, list_eq,
  list_beq, list_beq_iff,
}
use mnemes.Prelude.Text.{Text}
use mnemes.Shards.Cache.{without}

-- The key is in the list.
abbrev pub Has : Text → List Text → Type 0
Has key = Any (λ k. k ≡ key)

-- Each key once.
unfoldable pub Once : List Text → Type 0
Once [] = Unit
Once (k ∷ ks) = All (λ x. x ≢ k) ks × Once ks

pub differ : (a b : Text) → list_beq a b ≡ false → a ≢ b
differ a b h same = cc ((list_beq_iff a b).1 same)

pub without-All :
    (P : Text → Type 0) (key : Text) (ks : List Text) → All P ks → All P (without key ks)
unfolding without
without-All P key [] h = tt
without-All P key (k ∷ ks) h = elim (Bool-cases (list_beq k key)) [
  | inl e ↦ rw e (without-All P key ks h.1)
  | inr e ↦ rw e (h.0, without-All P key ks h.1)
]

pub without-other : (key : Text) (ks : List Text) → All (λ x. x ≢ key) (without key ks)
unfolding without
without-other key [] = tt
without-other key (k ∷ ks) = elim (Bool-cases (list_beq k key)) [
  | inl e ↦ rw e (without-other key ks)
  | inr e ↦ rw e (differ k key e, without-other key ks)
]

pub without-Once : (key : Text) (ks : List Text) → Once ks → Once (without key ks)
unfolding without Once
without-Once key [] h = tt
without-Once key (k ∷ ks) h = elim (Bool-cases (list_beq k key)) [
  | inl e ↦ rw e (without-Once key ks h.1)
  | inr e ↦ rw e (without-All _ key ks h.0, without-Once key ks h.1)
]

pub without-Has : (key x : Text) (ks : List Text) → Has x ks → (x ≡ key) ⊎ Has x (without key ks)
unfolding without
without-Has key x [] h = elim h [ ]
without-Has key x (k ∷ ks) h = elim (Bool-cases (list_beq k key)) [
  | inl e ↦ elim h [
    | inl same ↦ inl (sym same ∙ (list_beq_iff k key).0 e)
    | inr m ↦ rw e (without-Has key x ks m)
  ]
  | inr e ↦ elim h [
    | inl same ↦ rw e (inr (inl same))
    | inr m ↦ elim (without-Has key x ks m) [ inl p ↦ inl p | inr q ↦ rw e (inr (inr q)) ]
  ]
]

pub All-append {κ} :
    (P : Text → Type κ) (xs : List Text) (y : Text) → All P xs → P y → All P (xs ++ (y ∷ []))
All-append P [] y h p = (p, tt)
All-append P (x ∷ xs) y h p = (h.0, All-append P xs y h.1 p)

pub Once-append :
    (xs : List Text) (y : Text) → All (λ x. x ≢ y) xs → Once xs → Once (xs ++ (y ∷ []))
unfolding Once
Once-append [] y h o = (tt, tt)
Once-append (x ∷ xs) y h o =
    (All-append (λ z. z ≢ x) xs y o.0 (λ same. h.0 (sym same)), Once-append xs y h.1 o.1)

pub Has-append :
    (x : Text) (xs : List Text) (y : Text) → Has x (xs ++ (y ∷ [])) ↔ (Has x xs ⊎ (y ≡ x))
Has-append x [] y = (
  λ h. elim h [ inl e ↦ inr e | inr m ↦ elim m [ ] ],
  λ h. elim h [ inl m ↦ elim m [ ] | inr e ↦ inl e ],
)
Has-append x (z ∷ xs) y =
    let ih = Has-append x xs y in
    (
      λ h. elim h [
        | inl e ↦ inl (inl e)
        | inr m ↦ elim (ih.0 m) [ inl p ↦ inl (inr p) | inr q ↦ inr q ]
      ],
      λ h. elim h [
        | inl m ↦ elim m [ inl e ↦ inl e | inr p ↦ inr (ih.1 (inl p)) ]
        | inr q ↦ inr (ih.1 (inr q))
      ],
    )
