-- ===== src/Shards/Cache/Eviction.antt =====
-- src/store.rs: the loop that evicts ends, within the capacity, and spares the last key of the queue.
use mnemes.Prelude.{
  ℕ, suc, ◌<◌, ◌≤◌, ◌≡◌, ◌≢◌, refl, sym, ap, ◌∙◌, ◌↔◌, inl, inr, Bool-cases, true, some, List, [],
  ◌∷◌, ◌++◌, length, leb, All, arith, list_eq, list_beq, list_beq_iff,
}
use mathlib.Core.Path.{subst}
use mnemes.Prelude.Text.{Text}
use mnemes.Shards.Cache.{without, get, remove, evict}
use mnemes.Shards.Cache.Keys.{Has, Once, without-other, without-Once, without-Has, Has-append}

Has-All : (P : Text → Type 0) (x : Text) (ks : List Text) → All P ks → Has x ks → P x
Has-All P x [] h m = elim m [ ]
Has-All P x (k ∷ ks) h (inl e) = subst P e h.0
Has-All P x (k ∷ ks) h (inr m) = Has-All P x ks h.1 m

pub Has-without : (key x : Text) (ks : List Text) → Has x (without key ks) → Has x ks
unfolding without
Has-without key x [] h = h
Has-without key x (k ∷ ks) h = elim (Bool-cases (list_beq k key)) [
  | inl e ↦ inr (Has-without key x ks (rw e at h))
  | inr e ↦ go (rw e at h) (Has-without key x ks)
]
  where
    go : Has x (k ∷ without key ks) → (Has x (without key ks) → Has x ks) → Has x (k ∷ ks)
    go (inl e) rest = inl e
    go (inr m) rest = inr (rest m)

one_key :
    (key : Text) (ks : List Text) → Once ks → ((x : Text) → Has x ks → key ≡ x) → length ks ≤ 1
unfolding Once
one_key key [] o h = omega arith
one_key key (k ∷ []) o h = omega arith
one_key key (k ∷ k' ∷ ks) o h = absurd (o.0.0 (sym (h k' (inr (inl refl))) ∙ h k (inl refl)))

module _ {Store : Type 0} where
  abbrev pub keys : List (Text × Store) → List Text
  keys [] = []
  keys ((k, s) ∷ entries) = k ∷ keys entries

  pub keys-remove :
      (key : Text) (stores : List (Text × Store))
      → keys (remove key stores) ≡ without key (keys stores)
  unfolding remove without
  keys-remove key [] = refl
  keys-remove key ((k, s) ∷ stores) = elim (Bool-cases (list_beq k key)) [
    | inl e ↦ rw e (keys-remove key stores)
    | inr e ↦ rw e (ap (λ ks. k ∷ ks) (keys-remove key stores))
  ]

  length-keys : (stores : List (Text × Store)) → length (keys stores) ≡ length stores
  length-keys [] = refl
  length-keys ((k, s) ∷ stores) = ap suc (length-keys stores)

  get-remove :
      (key other : Text) (stores : List (Text × Store))
      → key ≢ other
      → get key (remove other stores) ≡ get key stores
  unfolding get remove
  get-remove key other [] h = refl
  get-remove key other ((k, s) ∷ stores) h = elim (Bool-cases (list_beq k other)) [
    | inl e ↦ elim (Bool-cases (list_beq k key)) [
      | inl e' ↦ absurd (h (sym ((list_beq_iff k key).0 e') ∙ (list_beq_iff k other).0 e))
      | inr e' ↦ rw (e, e') (get-remove key other stores h)
    ]
    | inr e ↦ elim (Bool-cases (list_beq k key)) [
      | inl e' ↦ rw (e, e') refl
      | inr e' ↦ rw (e, e') (get-remove key other stores h)
    ]
  ]

  -- The queue holds the keys of the stores, each once.
  pub record IsQueueOf (lru : List Text) (stores : List (Text × Store)) : Type 0 where
    pub queue_once : Once lru
    pub stores_once : Once (keys stores)
    pub same : (x : Text) → Has x lru ↔ Has x (keys stores)

  IsQueueOf-evicted :
      (e : Text) (lru : List Text) (stores : List (Text × Store))
      → IsQueueOf (e ∷ lru) stores
      → IsQueueOf lru (remove e stores)
  unfolding Once
  IsQueueOf-evicted e lru stores w = record {
    queue_once = w.queue_once.1;
    stores_once =
        subst Once (sym (keys-remove e stores)) (without-Once e (keys stores) w.stores_once);
    same = λ x. (
      λ m.
          subst (Has x) (sym (keys-remove e stores))
            (elim (without-Has e x (keys stores) ((w.same x).0 (inr m))) [
              | inl p ↦ absurd (Has-All (λ y. y ≢ e) x lru w.queue_once.0 m p)
              | inr q ↦ q
            ]),
      λ m.
          let m' = subst (Has x) (keys-remove e stores) m in
          elim ((w.same x).1 (Has-without e x (keys stores) m')) [
            | inl p ↦ absurd (
                Has-All (λ y. y ≢ e) x (without e (keys stores)) (without-other e (keys stores)) m'
                  (sym p))
            | inr q ↦ q
          ],
    );
  }

  -- What is left by the loop.
  pub record IsEvicted (capacity : ℕ) (key : Text) (stores : List (Text × Store))
      (out : List Text × List (Text × Store)) : Type 0 where
    pub queue : IsQueueOf out.0 out.1
    pub bounded : length out.1 ≤ capacity
    pub kept : get key out.1 ≡ get key stores

  pub evict-IsEvicted :
      (capacity : ℕ) (key : Text) (xs : List Text) (stores : List (Text × Store))
      → 0 < capacity
      → IsQueueOf (xs ++ (key ∷ [])) stores
      → (out : List Text × List (Text × Store)) × (evict capacity (xs ++ (key ∷ [])) stores
          ≡ some out)
        × IsEvicted capacity key stores out
  unfolding evict Once
  evict-IsEvicted capacity key [] stores some_room w =
      let one =
        one_key key (keys stores) w.stores_once
          (λ x m. elim ((w.same x).1 m) [ inl e ↦ e | inr m' ↦ elim m' [ ] ]) in
      let small : leb (length stores) capacity ≡ true =
        let l = length-keys stores in ground arith in
      ((key ∷ [], stores), rw small refl, record { queue = w; bounded = ground arith; kept = refl })
  evict-IsEvicted capacity key (e ∷ xs) stores some_room w =
      elim (Bool-cases (leb (length stores) capacity)) [
        | inl small ↦ (
          (e ∷ (xs ++ (key ∷ [])), stores),
          rw small refl,
          record { queue = w; bounded = ground arith; kept = refl },
        )
        | inr large ↦
            let (out, found, v) =
              evict-IsEvicted capacity key xs (remove e stores) some_room
                (IsQueueOf-evicted e (xs ++ (key ∷ [])) stores w) in
            let other : key ≢ e =
              Has-All (λ y. y ≢ e) key (xs ++ (key ∷ [])) w.queue_once.0
                ((Has-append key xs key).1 (inr refl)) in
            (
              out,
              rw large found,
              record {
                queue = v.queue;
                bounded = v.bounded;
                kept = v.kept ∙ get-remove key e stores other;
              },
            )
      ]
