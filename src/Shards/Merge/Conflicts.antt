-- ===== src/Shards/Merge/Conflicts.antt =====
-- src/shards.rs: the loop that looks for conflicts ends well when each id has one content.
use Prim.Native.Nat.{Ordering}
use mathlib.Core.Path.{subst}
use mnemes.Prelude.{
  ◌≡◌, refl, sym, ap, ◌∙◌, ◌↔◌, ◌⊎◌, inl, inr, Bool-cases, Option, Option-cases, none, some, List,
  [], ◌∷◌, Any, arith, ◌!=◌, list_eq, list_beq, list_beq_iff, if◌then◌else◌, Result, ok, err,
}
use mnemes.Prelude.Text.{Text}
use mnemes.Error.{MnemesError, conflicting_shard_item}
use mnemes.Shards.Merge.{RoutedSearchResult, get, check_conflicts}

module _ {SearchResult : Type 0} (result_id content : SearchResult → Text)
    (score_cmp : SearchResult → SearchResult → Ordering) where
  abbrev pub Results : Type 0
  Results = List (RoutedSearchResult SearchResult)

  abbrev pub IsItem : Text → Text → RoutedSearchResult SearchResult → Type 0
  IsItem id c r = (result_id r.result ≡ id) × (content r.result ≡ c)

  -- One id has one content among the results.
  abbrev pub Agree : Results → Type 0
  Agree results = (id c c' : Text) → Any (IsItem id c) results → Any (IsItem id c') results → c ≡ c'

  -- Agreement with what was seen.
  pub record AgreeWith (seen : List (Text × Text)) (results : Results) : Type 0 where
    pub among : Agree results
    pub with_seen : (id c c' : Text) → get seen id ≡ some c → Any (IsItem id c') results → c ≡ c'

  -- One turn of the loop.
  check_conflicts-step :
      (seen : List (Text × Text)) (r : RoutedSearchResult SearchResult) (results : Results)
      → (check_conflicts result_id content score_cmp seen (r ∷ results) ≡ ok tt) ↔ (
          ((get seen (result_id r.result) ≡ none)
            × (check_conflicts result_id content score_cmp
                  ((result_id r.result, content r.result) ∷ seen)
                  results
                ≡ ok tt))
          ⊎ ((get seen (result_id r.result) ≡ some (content r.result))
              × (check_conflicts result_id content score_cmp seen results ≡ ok tt)))
  unfolding check_conflicts
  check_conflicts-step seen r results =
      go (get seen (result_id r.result))
        (check_conflicts result_id content score_cmp ((result_id r.result, content r.result) ∷ seen)
          results)
        (check_conflicts result_id content score_cmp seen results)
    where
      go :
          (o : Option Text) (fresh again : Result MnemesError (Unit {0}))
          → (elim o [
            | some existing ↦
                if existing != content r.result
                then err (conflicting_shard_item (result_id r.result))
                else again
            | none ↦ fresh
          ]
              ≡ ok tt)
            ↔ (((o ≡ none) × (fresh ≡ ok tt)) ⊎ ((o ≡ some (content r.result)) × (again ≡ ok tt)))
      go none fresh again = (λ h. inl (refl, h), λ h. ground arith)
      go (some c) fresh again = elim (Bool-cases (list_beq c (content r.result))) [
        | inl e ↦ (
          λ h. inr (ap some ((list_beq_iff c (content r.result)).0 e), rw e at h),
          λ h. elim h [ inl p ↦ cc | inr p ↦ simp e p.1 ],
        )
        | inr e ↦ (
          λ h. let h' = rw e at h in cc,
          λ h. elim h [
            | inl p ↦ cc
            | inr p ↦ cc ((list_beq_iff c (content r.result)).1 (cc (p.0)), e)
          ],
        )
      ]

  get-here : (seen : List (Text × Text)) (id c : Text) → get ((id, c) ∷ seen) id ≡ some c
  unfolding get
  get-here seen id c = rw ((list_beq_iff id id).1 refl) refl

  get-cons :
      (seen : List (Text × Text)) (key c id d : Text)
      → get ((key, c) ∷ seen) id ≡ some d
      → ((key ≡ id) × (c ≡ d)) ⊎ (get seen id ≡ some d)
  unfolding get
  get-cons seen key c id d h = elim (Bool-cases (list_beq key id)) [
    | inl e ↦ let h' = rw e at h in inl ((list_beq_iff key id).0 e, cc)
    | inr e ↦ let h' = rw e at h in inr h'
  ]

  get-there :
      (seen : List (Text × Text)) (key c id d : Text)
      → get seen key ≡ none
      → get seen id ≡ some d
      → get ((key, c) ∷ seen) id ≡ some d
  unfolding get
  get-there seen key c id d new h = elim (Bool-cases (list_beq key id)) [
    | inl e ↦
        let same = (list_beq_iff key id).0 e in cc (subst (λ k. get seen k ≡ none) same new, h)
    | inr e ↦ rw e h
  ]

  pub check_conflicts-AgreeWith :
      (seen : List (Text × Text)) (results : Results)
      → check_conflicts result_id content score_cmp seen results ≡ ok tt
      → AgreeWith seen results
  check_conflicts-AgreeWith seen [] h = record {
    among = λ id c c' a b. elim a [ ];
    with_seen = λ id c c' g b. elim b [ ];
  }
  check_conflicts-AgreeWith seen (r ∷ results) h =
      elim ((check_conflicts-step seen r results).0 h) [
        | inl (new, rest) ↦
            let ih =
              check_conflicts-AgreeWith ((result_id r.result, content r.result) ∷ seen) results
                rest in
            extend (get-here seen (result_id r.result) (content r.result))
              (λ id c g. get-there seen (result_id r.result) (content r.result) id c new g)
              (λ c g. cc (new, g)) ih
        | inr (old, rest) ↦
            extend old (λ id c g. g) (λ c g. cc (old, g))
              (check_conflicts-AgreeWith seen results rest)
      ]
    where
      extend :
          {seen' : List (Text × Text)}
          → get seen' (result_id r.result) ≡ some (content r.result)
          → ((id c : Text) → get seen id ≡ some c → get seen' id ≡ some c)
          → ((c : Text) → get seen (result_id r.result) ≡ some c → c ≡ content r.result)
          → AgreeWith seen' results
          → AgreeWith seen (r ∷ results)
      extend here grows own ih = record {
        among = λ id c c' a b. elim a [
          | inl (i, e) ↦ elim b [
            | inl (j, e') ↦ sym e ∙ e'
            | inr m ↦
                sym e
                ∙ ih.with_seen (result_id r.result) (content r.result) c' here
                    (subst (λ k. Any (IsItem k c') results) (sym i) m)
          ]
          | inr m ↦ elim b [
            | inl (j, e') ↦ sym (
                sym e'
                ∙ ih.with_seen (result_id r.result) (content r.result) c here
                    (subst (λ k. Any (IsItem k c) results) (sym j) m))
            | inr m' ↦ ih.among id c c' m m'
          ]
        ];
        with_seen = λ id c c' g b. elim b [
          | inl (j, e') ↦ own c (subst (λ k. get seen k ≡ some c) (sym j) g) ∙ e'
          | inr m ↦ ih.with_seen id c c' (grows id c g) m
        ];
      }

  pub AgreeWith-check_conflicts :
      (seen : List (Text × Text)) (results : Results)
      → AgreeWith seen results
      → check_conflicts result_id content score_cmp seen results ≡ ok tt
  unfolding check_conflicts
  AgreeWith-check_conflicts seen [] w = refl
  AgreeWith-check_conflicts seen (r ∷ results) w =
      elim (Option-cases (get seen (result_id r.result))) [
        | inl new ↦ (check_conflicts-step seen r results).1 (
            inl (
              new,
              AgreeWith-check_conflicts ((result_id r.result, content r.result) ∷ seen) results
                  (record {
                    among = λ id c c' a b. w.among id c c' (inr a) (inr b);
                    with_seen = λ id c c' g b.
                        elim (get-cons seen (result_id r.result) (content r.result) id c g) [
                          | inl (i, e) ↦ w.among id c c' (inl (i, e)) (inr b)
                          | inr g' ↦ w.with_seen id c c' g' (inr b)
                        ];
                  }),
            ))
        | inr (c, old) ↦
            let same : c ≡ content r.result =
              w.with_seen (result_id r.result) c (content r.result) old (inl (refl, refl)) in
            (check_conflicts-step seen r results).1 (
              inr (
                old ∙ ap some same,
                AgreeWith-check_conflicts seen results (record {
                  among = λ id c c' a b. w.among id c c' (inr a) (inr b);
                  with_seen = λ id c c' g b. w.with_seen id c c' g (inr b);
                }),
              ))
      ]
