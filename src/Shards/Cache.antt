-- ===== src/Shards/Cache.antt =====
-- src/store.rs: ShardStoreCache, the bounded cache of the open stores of shards. A store is a type of
-- the crate semantic_memory; a HashMap is a list of entries, each key once.
pub mod Keys
pub mod Eviction
pub mod Laws
use mnemes.Prelude.{
  ℕ, suc, ◌-◌, ◌^◌, Bool, true, false, not, Option, none, some, List, [], ◌∷◌, ◌++◌, length, leb,
  ltb, ◌==◌, list_eq, if◌then◌else◌,
}
use mnemes.Prelude.Text.{Text}

pub record ShardStoreCache (Store : Type 0) : Type 0 where
  pub capacity : ℕ  -- usize
  pub stores : List (Text × Store)
  pub lru : List Text
  pub total_opens : ℕ  -- u64

-- `VecDeque::retain` of the other keys.
unfoldable pub without : Text → List Text → List Text
without key [] = []
without key (k ∷ ks) = let rest = without key ks in if k == key then rest else k ∷ rest

-- What the server does with its cache: it asks for a store, or it opens one and puts it in.
pub data CacheUse (Store : Type 0) : Type 0 where
  ask : Text → CacheUse Store
  put : Text → Store → CacheUse Store

-- `saturating_add(1)` of a u64.
abbrev pub one_more : ℕ → ℕ
one_more n = if ltb n (2 ^ 64 - 1) then suc n else n

module _ {Store : Type 0} where
  unfoldable pub get : Text → List (Text × Store) → Option Store
  get key [] = none
  get key ((k, s) ∷ entries) = let rest = get key entries in if k == key then some s else rest

  unfoldable pub remove : Text → List (Text × Store) → List (Text × Store)
  remove key [] = []
  remove key ((k, s) ∷ entries) =
      let rest = remove key entries in if k == key then rest else (k, s) ∷ rest

  abbrev pub insert : Text → Store → List (Text × Store) → List (Text × Store)
  insert key store entries = (key, store) ∷ remove key entries

  unfoldable pub cache_new : ℕ → ShardStoreCache Store
  cache_new capacity = record {
    capacity = if ltb capacity 1 then 1 else capacity;
    stores = [];
    lru = [];
    total_opens = 0;
  }

  unfoldable pub get_key : Text → ShardStoreCache Store → Option (Store × ShardStoreCache Store)
  get_key key cache = elim (get key cache.stores) [
    | none ↦ none
    | some store ↦ some (store, record cache { lru = without key cache.lru ++ (key ∷ []) })
  ]

  -- The loop that evicts: `none` when it would not end, since no key is left to evict.
  unfoldable pub evict :
      (capacity : ℕ) (lru : List Text)
      → List (Text × Store)
      → Option (List Text × List (Text × Store))
  evict capacity [] stores = if leb (length stores) capacity then some ([], stores) else none
  evict capacity (evicted ∷ lru) stores =
      let rest = evict capacity lru (remove evicted stores) in
      if leb (length stores) capacity then some (evicted ∷ lru, stores) else rest

  abbrev pub evicted_cache :
      ShardStoreCache Store
      → Option (List Text × List (Text × Store))
      → Option (ShardStoreCache Store)
  evicted_cache cache none = none
  evicted_cache cache (some (lru, stores)) = some (record cache { lru = lru; stores = stores })

  unfoldable pub insert_key : Text → Store → ShardStoreCache Store → Option (ShardStoreCache Store)
  insert_key key store cache =
      evicted_cache (record cache { total_opens = one_more cache.total_opens })
        (evict cache.capacity (without key cache.lru ++ (key ∷ [])) (insert key store cache.stores))

  abbrev pub after_get :
      ShardStoreCache Store → Option (Store × ShardStoreCache Store) → ShardStoreCache Store
  after_get cache none = cache
  after_get cache (some (store, cache')) = cache'

  unfoldable pub use_one : CacheUse Store → ShardStoreCache Store → Option (ShardStoreCache Store)
  use_one (ask key) cache = some (after_get cache (get_key key cache))
  use_one (put key store) cache = insert_key key store cache

  abbrev pub and_then :
      (ShardStoreCache Store → Option (ShardStoreCache Store))
      → Option (ShardStoreCache Store)
      → Option (ShardStoreCache Store)
  and_then next none = none
  and_then next (some cache) = next cache

  unfoldable pub use_all :
      List (CacheUse Store) → ShardStoreCache Store → Option (ShardStoreCache Store)
  use_all [] cache = some cache
  use_all (u ∷ uses) cache = and_then (use_all uses) (use_one u cache)
