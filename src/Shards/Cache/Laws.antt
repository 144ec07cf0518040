-- ===== src/Shards/Cache/Laws.antt =====
-- src/store.rs: however a cache is used, its loops end, it stays within its capacity, and it keeps what
-- was just opened.
use mnemes.Prelude.{
  ℕ, ◌<◌, ◌≤◌, ◌≡◌, ◌≢◌, refl, sym, ◌∙◌, ◌↔◌, ◌⊎◌, inl, inr, Bool-cases, Option, none, some, List,
  [], ◌∷◌, ◌++◌, length, All, arith, list_eq, list_beq, list_beq_iff,
}
use mathlib.Core.Path.{subst}
use mnemes.Prelude.Text.{Text}
use mnemes.Shards.Cache.{
  ShardStoreCache, CacheUse, ask, put, after_get, one_more, use_one, use_all, without, get, insert,
  cache_new, get_key, insert_key,
}
use mnemes.Shards.Cache.Eviction.{Has-without, keys, keys-remove, IsQueueOf, evict-IsEvicted}
use mnemes.Shards.Cache.Keys.{
  Has, Once, without-other, without-Once, without-Has, Once-append, Has-append,
}

module _ {Store : Type 0} where
  -- A cache has room, holds no more stores than its capacity, and its queue is that of its stores.
  pub record IsCache (c : ShardStoreCache Store) : Type 0 where
    pub room : 0 < c.capacity
    pub bounded : length c.stores ≤ c.capacity
    pub queue : IsQueueOf c.lru c.stores

  cache_new-IsCache : (capacity : ℕ) → IsCache (cache_new capacity)
  unfolding cache_new Once
  cache_new-IsCache capacity = record {
    room = ground arith;
    bounded = omega arith;
    queue = record { queue_once = tt; stores_once = tt; same = λ x. (λ m. m, λ m. m) };
  }

  -- A key at the back of the queue.
  IsQueueOf-touched :
      (key : Text) (lru : List Text) (stores stores' : List (Text × Store))
      → IsQueueOf lru stores
      → Once (keys stores')
      → ((x : Text) → Has x (keys stores') ↔ (Has x (keys stores) ⊎ (key ≡ x)))
      → IsQueueOf (without key lru ++ (key ∷ [])) stores'
  IsQueueOf-touched key lru stores stores' w once has = record {
    queue_once =
        Once-append (without key lru) key (without-other key lru)
          (without-Once key lru w.queue_once);
    stores_once = once;
    same = λ x.
        let back = Has-append x (without key lru) key in
        (
          λ m. elim (back.0 m) [
            | inl p ↦ (has x).1 (inl ((w.same x).0 (Has-without key x lru p)))
            | inr q ↦ (has x).1 (inr q)
          ],
          λ m. elim ((has x).0 m) [
            | inr q ↦ back.1 (inr q)
            | inl p ↦ elim (without-Has key x lru ((w.same x).1 p)) [
              | inl e ↦ back.1 (inr (sym e))
              | inr q ↦ back.1 (inl q)
            ]
          ],
        );
  }

  get-Has :
      (key : Text) (store : Store) (stores : List (Text × Store))
      → get key stores ≡ some store
      → Has key (keys stores)
  unfolding get
  get-Has key store [] h = cc
  get-Has key store ((k, s) ∷ stores) h = elim (Bool-cases (list_beq k key)) [
    | inl e ↦ inl ((list_beq_iff k key).0 e)
    | inr e ↦ inr (get-Has key store stores (rw e at h))
  ]

  get_key-IsCache :
      (key : Text) (c : ShardStoreCache Store) → IsCache c → IsCache (after_get c (get_key key c))
  unfolding get_key
  get_key-IsCache key c w = go (get key c.stores) refl
    where
      go :
          (o : Option Store)
          → get key c.stores ≡ o
          → IsCache (
              after_get c (elim o [
                | none ↦ none
                | some store ↦ some (store, record c { lru = without key c.lru ++ (key ∷ []) })
              ]))
      go none e = w
      go (some store) e = record {
        room = w.room;
        bounded = w.bounded;
        queue = IsQueueOf-touched key c.lru c.stores c.stores w.queue w.queue.stores_once (λ x. (
          λ m. inl m,
          λ m. elim m [
            | inl p ↦ p
            | inr q ↦ subst (λ k. Has k (keys c.stores)) q (get-Has key store c.stores e)
          ],
        ));
      }

  -- The loop of an insertion ends; the cache is one again, and has the store that was put in.
  insert_key-IsCache :
      (key : Text) (store : Store) (c : ShardStoreCache Store)
      → IsCache c
      → (c' : ShardStoreCache Store) × (insert_key key store c ≡ some c')
        × IsCache c'
        × (c'.capacity ≡ c.capacity)
        × (get key c'.stores ≡ some store)
  unfolding insert_key Once get
  insert_key-IsCache key store c w =
      let stores' = insert key store c.stores in
      let others = keys-remove key c.stores in
      let once : Once (keys stores') = (
        subst (All (λ x. x ≢ key)) (sym others) (without-other key (keys c.stores)),
        subst Once (sym others) (without-Once key (keys c.stores) w.queue.stores_once),
      ) in
      let has : (x : Text) → Has x (keys stores') ↔ (Has x (keys c.stores) ⊎ (key ≡ x)) = λ x. (
        λ m. elim m [
          | inl e ↦ inr e
          | inr m' ↦ inl (Has-without key x (keys c.stores) (subst (Has x) others m'))
        ],
        λ m. elim m [
          | inr e ↦ inl e
          | inl p ↦ elim (without-Has key x (keys c.stores) p) [
            | inl e ↦ inl (sym e)
            | inr q ↦ inr (subst (Has x) (sym others) q)
          ]
        ],
      ) in
      let (out, found, v) =
        evict-IsEvicted c.capacity key (without key c.lru) stores' w.room
          (IsQueueOf-touched key c.lru c.stores stores' w.queue once has) in
      let here : get key stores' ≡ some store = rw ((list_beq_iff key key).1 refl) refl in
      let c' : ShardStoreCache Store = record c {
        lru = out.0;
        stores = out.1;
        total_opens = one_more c.total_opens;
      } in
      (
        c',
        rw found refl,
        record { room = w.room; bounded = v.bounded; queue = v.queue },
        refl,
        v.kept ∙ here,
      )

  use_one-IsCache :
      (u : CacheUse Store) (c : ShardStoreCache Store)
      → IsCache c
      → (c' : ShardStoreCache Store) × (use_one u c ≡ some c') × IsCache c'
  unfolding use_one
  use_one-IsCache (ask key) c w = (after_get c (get_key key c), refl, get_key-IsCache key c w)
  use_one-IsCache (put key store) c w =
      let (c', found, w', same, there) = insert_key-IsCache key store c w in (c', found, w')

  use_all-from :
      (uses : List (CacheUse Store)) (c : ShardStoreCache Store)
      → IsCache c
      → (c' : ShardStoreCache Store) × (use_all uses c ≡ some c') × IsCache c'
  unfolding use_all
  use_all-from [] c w = (c, refl, w)
  use_all-from (u ∷ uses) c w =
      let (c1, found, w1) = use_one-IsCache u c w in
      let (c2, found', w2) = use_all-from uses c1 w1 in (c2, rw (found, found') refl, w2)

  -- Whatever is asked for and put into a new cache of any capacity, each loop that evicts ends, and
  -- the cache never holds more stores than its capacity, which is at least one. A store that is put in
  -- next is there afterwards: the loop ends, and evicts others only.
  pub use_all-IsCache :
      (capacity : ℕ) (uses : List (CacheUse Store)) (key : Text) (store : Store)
      → (c : ShardStoreCache Store) × (use_all uses (cache_new capacity) ≡ some c)
        × IsCache c
        × ((c' : ShardStoreCache Store) × (insert_key key store c ≡ some c')
            × IsCache c'
            × (c'.capacity ≡ c.capacity)
            × (get key c'.stores ≡ some store))
  use_all-IsCache capacity uses key store =
      let (c, found, w) = use_all-from uses (cache_new capacity) (cache_new-IsCache capacity) in
      (c, found, w, insert_key-IsCache key store c w)
