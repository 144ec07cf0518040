-- ===== src/Shards/Merge/Laws.antt =====
-- src/shards.rs: a merge succeeds when no id has two contents, and gives each item once, best first.
use Prim.Native.Nat.{Ordering}
use mathlib.Core.Path.{subst}
use mnemes.Prelude.{
  ℕ, suc, ◌+◌, ◌<◌, ◌≤◌, ◌≡◌, ◌≢◌, refl, sym, ap, ◌∙◌, ◌↔◌, ◌⊎◌, inl, inr, Bool, Bool-cases, true,
  false, ◌||◌, List, [], ◌∷◌, length, All, All-imp, Any, any, some, arith, nat_beq, ◌==◌, list_eq,
  list_beq, list_beq_iff, ok, >>=-eq-ok, ok_injective,
}
use mnemes.Prelude.Text.{Text, as_bytes}
use mnemes.Prelude.Sort.{
  Any-sort_by, sort_by, text_le, text_le_refl, text_le_trans, bytes_le_total, Pairwise,
  sort_by-Ascending, Ascending-Pairwise,
}
use mnemes.Shards.Merge.{
  RoutedSearchResult, get, result_le, check_conflicts, emit, merge_routed_results,
}
use mnemes.Shards.Merge.Conflicts.{
  Agree, IsItem, check_conflicts-AgreeWith, AgreeWith-check_conflicts,
}

or_false : (a b : Bool) → (a || b) ≡ false → (a ≡ false) × (b ≡ false)
or_false a b h = ground arith

or_true : (a b : Bool) → a ≡ false → (a || b) ≡ true → b ≡ true
or_true a b e h = ground arith

All-at : {A : Type 0} (P : A → Type 0) (xs : List A) (a : A) → All P xs → Any (λ x. x ≡ a) xs → P a
All-at P [] a h m = elim m [ ]
All-at P (x ∷ xs) a h (inl e) = subst P e h.0
All-at P (x ∷ xs) a h (inr m) = All-at P xs a h.1 m

nothing_seen : (id c : Text) → get [] id ≡ some c → ⊥
unfolding get
nothing_seen id c h = cc

module _ {SearchResult : Type 0} (result_id content : SearchResult → Text)
    (score_cmp : SearchResult → SearchResult → Ordering) where
  abbrev pub id_of : RoutedSearchResult SearchResult → Text
  id_of r = result_id r.result

  -- A result goes before another: its score has the higher place, or the same place and its id is not
  -- after the other's.
  abbrev pub Outranks :
      (SearchResult → ℕ)
      → RoutedSearchResult SearchResult
      → RoutedSearchResult SearchResult
      → Type 0
  Outranks place a b =
      (place b.result < place a.result)
      ⊎ ((place a.result ≡ place b.result) × (text_le (id_of a) (id_of b) ≡ true))

  unfoldable pub Distinct : List (RoutedSearchResult SearchResult) → Type 0
  Distinct [] = Unit
  Distinct (x ∷ xs) = All (λ y. id_of y ≢ id_of x) xs × Distinct xs

  -- Each score has a place in the order of the scores: `f32::total_cmp` is a total order.
  pub record IsPlace (place : SearchResult → ℕ) : Type 0 where
    pub less : (x y : SearchResult) → (score_cmp x y ≡ Ordering.lt) ↔ (place x < place y)
    pub equal : (x y : SearchResult) → (score_cmp x y ≡ Ordering.eq) ↔ (place x ≡ place y)

  -- What is emitted, from `count` on, after the ids of `emitted`.
  pub record IsEmission (place : SearchResult → ℕ) (emitted : List Text) (top_k count : ℕ)
      (results out : List (RoutedSearchResult SearchResult)) : Type 0 where
    pub found : All (λ x. Any (λ y. y ≡ x) results) out
    pub new : All (λ x. any (λ id. id == id_of x) emitted ≡ false) out
    pub distinct : Distinct out
    pub ordered : Pairwise (Outranks place) out
    pub bounded : length out + count ≤ top_k
    pub best :
        (y : RoutedSearchResult SearchResult)
        → Any (λ x. x ≡ y) results
        → (any (λ e. e == id_of y) emitted ≡ true)
          ⊎ (Any (λ x. (id_of x ≡ id_of y) × Outranks place x y) out
              ⊎ ((length out + count ≡ top_k) × All (λ x. Outranks place x y) out))

  module _ (place : SearchResult → ℕ) where
    Outranks-refl : (a : RoutedSearchResult SearchResult) → Outranks place a a
    Outranks-refl a = inr (refl, text_le_refl (id_of a))

    Outranks-trans :
        (a b c : RoutedSearchResult SearchResult)
        → Outranks place a b
        → Outranks place b c
        → Outranks place a c
    Outranks-trans a b c (inl h) (inl k) = inl (omega arith)
    Outranks-trans a b c (inl h) (inr k) = inl (omega (arith, k.0))
    Outranks-trans a b c (inr h) (inl k) = inl (omega (arith, h.0))
    Outranks-trans a b c (inr h) (inr k) =
        inr (h.0 ∙ k.0, text_le_trans (id_of a) (id_of b) (id_of c) h.1 k.1)

    emit-IsEmission :
        (emitted : List Text) (top_k count : ℕ) (results : List (RoutedSearchResult SearchResult))
        → Pairwise (Outranks place) results
        → count < top_k
        → IsEmission place emitted top_k count results
            (emit result_id content score_cmp emitted top_k count results)
    unfolding emit Distinct
    emit-IsEmission emitted top_k count [] sorted more = record {
      found = tt;
      new = tt;
      distinct = tt;
      ordered = tt;
      bounded = omega arith;
      best = λ y m. elim m [ ];
    }
    emit-IsEmission emitted top_k count (r ∷ results) sorted more =
        elim (Bool-cases (any (λ id. id == id_of r) emitted)) [
          | inl old ↦ rw old (skip old (emit-IsEmission emitted top_k count results sorted.1 more))
          | inr new ↦ elim (Bool-cases (nat_beq (suc count) top_k)) [
            | inl last ↦ rw (new, last) (final new (ground arith))
            | inr further ↦
                rw (new, further)
                  (keep new (
                    emit-IsEmission (id_of r ∷ emitted) top_k (suc count) results sorted.1
                      (ground arith)))
          ]
        ]
      where
        -- The first result goes before each.
        before :
            (y : RoutedSearchResult SearchResult)
            → Any (λ x. x ≡ y) (r ∷ results)
            → Outranks place r y
        before y (inl e) = subst (Outranks place r) e (Outranks-refl r)
        before y (inr m) = All-at (Outranks place r) results y sorted.0 m

        skip :
            {out : List (RoutedSearchResult SearchResult)}
            → any (λ id. id == id_of r) emitted ≡ true
            → IsEmission place emitted top_k count results out
            → IsEmission place emitted top_k count (r ∷ results) out
        skip {out} old w = record {
          found = All-imp out (λ x m. inr m) w.found;
          new = w.new;
          distinct = w.distinct;
          ordered = w.ordered;
          bounded = w.bounded;
          best = λ y m. elim m [
            | inl e ↦ inl (subst (λ k. any (λ e. e == id_of k) emitted ≡ true) e old)
            | inr m' ↦ w.best y m'
          ];
        }

        final :
            any (λ id. id == id_of r) emitted ≡ false
            → suc count ≡ top_k
            → IsEmission place emitted top_k count (r ∷ results) (r ∷ [])
        final new last = record {
          found = (inl refl, tt);
          new = (new, tt);
          distinct = (tt, tt);
          ordered = (tt, tt);
          bounded = omega arith;
          best = λ y m. inr (inr (omega arith, (before y m, tt)));
        }

        keep :
            {out : List (RoutedSearchResult SearchResult)}
            → any (λ id. id == id_of r) emitted ≡ false
            → IsEmission place (id_of r ∷ emitted) top_k (suc count) results out
            → IsEmission place emitted top_k count (r ∷ results) (r ∷ out)
        keep {out} new w = record {
          found = (inl refl, All-imp out (λ x m. inr m) w.found);
          new = (new, All-imp out (λ x h. (or_false (list_beq (id_of r) (id_of x)) _ h).1) w.new);
          distinct = (
            All-imp out
                (λ x h same. cc (
                  (list_beq_iff (id_of r) (id_of x)).1 (sym same),
                  (or_false (list_beq (id_of r) (id_of x)) _ h).0,
                ))
                w.new,
            w.distinct,
          );
          ordered = (All-imp out (λ x m. before x (inr m)) w.found, w.ordered);
          bounded = omega (arith, w.bounded);
          best = λ y m. elim m [
            | inl e ↦ inr (inl (inl (ap id_of e, before y (inl e))))
            | inr m' ↦ elim (w.best y m') [
              | inl e ↦ elim (Bool-cases (list_beq (id_of r) (id_of y))) [
                | inl same ↦
                    inr (inl (inl ((list_beq_iff (id_of r) (id_of y)).0 same, before y (inr m'))))
                | inr other ↦ inl (or_true (list_beq (id_of r) (id_of y)) _ other e)
              ]
              | inr (inl m'') ↦ inr (inl (inr m''))
              | inr (inr (full, ahead)) ↦
                  inr (inr (omega (arith, full), (before y (inr m'), ahead)))
            ]
          ];
        }

    module _ (is_place : IsPlace place) where
      cases :
          (x y : SearchResult)
          → (score_cmp x y ≡ Ordering.lt)
            ⊎ ((score_cmp x y ≡ Ordering.eq) ⊎ (score_cmp x y ≡ Ordering.gt))
      cases x y = go (score_cmp x y)
        where
          go : (o : Ordering) → (o ≡ Ordering.lt) ⊎ ((o ≡ Ordering.eq) ⊎ (o ≡ Ordering.gt))
          go Ordering.lt = inl refl
          go Ordering.eq = inr (inl refl)
          go Ordering.gt = inr (inr refl)

      result_le-Outranks :
          (a b : RoutedSearchResult SearchResult)
          → result_le result_id content score_cmp a b ≡ true
          → Outranks place a b
      unfolding result_le
      result_le-Outranks a b h = go (score_cmp b.result a.result) refl h
        where
          go :
              (o : Ordering)
              → score_cmp b.result a.result ≡ o
              → (elim o [
                | Ordering.lt ↦ true
                | Ordering.eq ↦ text_le (id_of a) (id_of b)
                | Ordering.gt ↦ false
              ])
                ≡ true
              → Outranks place a b
          go Ordering.lt e h = inl ((is_place.less b.result a.result).0 e)
          go Ordering.eq e h = inr (sym ((is_place.equal b.result a.result).0 e), h)
          go Ordering.gt e h = cc

      -- The test, when the outcome of the comparison is known.
      lower :
          (a b : RoutedSearchResult SearchResult)
          → score_cmp b.result a.result ≡ Ordering.lt
          → result_le result_id content score_cmp a b ≡ true
      unfolding result_le
      lower a b e =
          subst
            (λ (o : Ordering).
              (elim o [
                | Ordering.lt ↦ true
                | Ordering.eq ↦ text_le (id_of a) (id_of b)
                | Ordering.gt ↦ false
              ])
              ≡ true)
            (sym e) refl

      tied :
          (a b : RoutedSearchResult SearchResult)
          → score_cmp b.result a.result ≡ Ordering.eq
          → text_le (id_of a) (id_of b) ≡ true
          → result_le result_id content score_cmp a b ≡ true
      unfolding result_le
      tied a b e h =
          subst
            (λ (o : Ordering).
              (elim o [
                | Ordering.lt ↦ true
                | Ordering.eq ↦ text_le (id_of a) (id_of b)
                | Ordering.gt ↦ false
              ])
              ≡ true)
            (sym e) h

      greater : (x y : SearchResult) → score_cmp x y ≡ Ordering.gt → score_cmp y x ≡ Ordering.lt
      greater x y e =
          let l = is_place.less x y in
          let q = is_place.equal x y in (is_place.less y x).1 (ground arith)

      result_le_total :
          (a b : RoutedSearchResult SearchResult)
          → (result_le result_id content score_cmp a b ≡ true)
            ⊎ (result_le result_id content score_cmp b a ≡ true)
      result_le_total a b = elim (cases b.result a.result) [
        | inl e ↦ inl (lower a b e)
        | inr (inl e) ↦
            let back =
              (is_place.equal a.result b.result).1 (sym ((is_place.equal b.result a.result).0 e)) in
            elim (bytes_le_total (as_bytes (id_of a)) (as_bytes (id_of b))) [
              | inl h ↦ inl (tied a b e h)
              | inr h ↦ inr (tied b a back h)
            ]
        | inr (inr e) ↦ inr (lower b a (greater b.result a.result e))
      ]

  -- What a merge that may give `top_k` results selects: results that were there, each id once, the
  -- better ones first, at most `top_k` of them; and of each result that was there either one with its id
  -- that is no worse, or `top_k` results none of which is worse.
  pub record IsSelection (place : SearchResult → ℕ) (top_k : ℕ)
      (results out : List (RoutedSearchResult SearchResult)) : Type 0 where
    pub found : All (λ x. Any (λ y. y ≡ x) results) out
    pub distinct : Distinct out
    pub ordered : Pairwise (Outranks place) out
    pub bounded : length out ≤ top_k
    pub best :
        (y : RoutedSearchResult SearchResult)
        → Any (λ x. x ≡ y) results
        → Any (λ x. (id_of x ≡ id_of y) × Outranks place x y) out
          ⊎ ((length out ≡ top_k) × All (λ x. Outranks place x y) out)

  sorted-Agree :
      (results : List (RoutedSearchResult SearchResult))
      → Agree result_id content score_cmp (sort_by (result_le result_id content score_cmp) results)
        ↔ Agree result_id content score_cmp results
  sorted-Agree results =
      let in_sorted = λ (id c : Text).
        Any-sort_by (result_le result_id content score_cmp)
          (IsItem result_id content score_cmp id c) results in
      (
        λ h id c c' a b. h id c c' ((in_sorted id c).1 a) ((in_sorted id c').1 b),
        λ h id c c' a b. h id c c' ((in_sorted id c).0 a) ((in_sorted id c').0 b),
      )

  pub merge-IsSelection :
      (place : SearchResult → ℕ) (results : List (RoutedSearchResult SearchResult)) (top_k : ℕ)
      → IsPlace place
      → 0 < top_k
      → (((out : List (RoutedSearchResult SearchResult)) × (merge_routed_results result_id content
                score_cmp results top_k
              ≡ ok out))
          ↔ Agree result_id content score_cmp results)
        × ((out : List (RoutedSearchResult SearchResult))
            → merge_routed_results result_id content score_cmp results top_k ≡ ok out
            → IsSelection place top_k results out)
  unfolding merge_routed_results
  merge-IsSelection place results top_k is_place more =
      let le = result_le result_id content score_cmp in
      let sorted = sort_by le results in
      let there = λ (P : RoutedSearchResult SearchResult → Type 0). Any-sort_by le P results in
      let pairs =
        Ascending-Pairwise le (Outranks place) (result_le-Outranks place is_place)
          (Outranks-trans place) sorted
          (sort_by-Ascending le (result_le_total place is_place) results) in
      (
        (
          λ (out, h).
              let (u, checked, rest) =
                >>=-eq-ok (check_conflicts result_id content score_cmp [] sorted) _ h in
              (sorted-Agree results).0
                (check_conflicts-AgreeWith result_id content score_cmp [] sorted checked).among,
          λ agree.
              let passes = AgreeWith-check_conflicts result_id content score_cmp [] sorted (record {
                among = (sorted-Agree results).1 agree;
                with_seen = λ id c c' g b. absurd (nothing_seen id c g);
              }) in
              (emit result_id content score_cmp [] top_k 0 sorted, rw passes refl),
        ),
        λ out h.
            let (u, checked, rest) =
              >>=-eq-ok (check_conflicts result_id content score_cmp [] sorted) _ h in
            let w = emit-IsEmission place [] top_k 0 sorted pairs more in
            subst (IsSelection place top_k results) (ok_injective rest) (record {
              found = All-imp _ (λ x m. (there (λ y. y ≡ x)).0 m) w.found;
              distinct = w.distinct;
              ordered = w.ordered;
              bounded = omega (arith, w.bounded);
              best = λ y m. elim (w.best y ((there (λ x. x ≡ y)).1 m)) [
                | inl e ↦ cc
                | inr (inl a) ↦ inl a
                | inr (inr (full, ahead)) ↦ inr (omega (arith, full), ahead)
              ];
            }),
      )
