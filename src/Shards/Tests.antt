-- ===== src/Shards/Tests.antt =====
-- Ranks and merges of concrete shards and results.
use Prim.Native.Nat.{Ordering, compare}
use mnemes.Prelude.{ℕ, ◌<◌, ◌≡◌, refl, ◌↔◌, none, some, List, [], ◌∷◌, Any, ok, arith, list_beq}
use mnemes.Prelude.Text.{Text, text, as_bytes}
use mnemes.Prelude.Sort.{bytes_le, insert_by, sort_by, dedup, Pairwise}
use mnemes.Identity.{DeviceStatus}
use mnemes.Shards.{
  ShardState, DeviceShard, RankedShard, is_ascii_alphanumeric, to_ascii_lowercase, split_tokens,
  non_empty, routing_tokens, namespace_terms, catalog_terms, overlap, score_shard, rank_le,
  rank_eligible, rank_shards,
}
use mnemes.Shards.Cache
use mnemes.Shards.Cache.{
  ShardStoreCache, CacheUse, ask, put, without, remove, cache_new, get_key, evict, insert_key,
  use_one, use_all,
}
use mnemes.Shards.Cache.Laws.{IsCache, use_all-IsCache}
use mnemes.Shards.Rank.{IsEligible, IsBetter, rank_shards-Pairwise}
use mnemes.Shards.Merge.{
  RoutedSearchResult, get, result_le, check_conflicts, emit, merge_routed_results,
}
use mnemes.Shards.Merge.Laws.{IsPlace, IsSelection, merge-IsSelection}

abbrev shard : DeviceShard
shard = record {
  device_id = text "device-1";
  state = ShardState.active;
  generation = 1;
  routing_terms = text "Rust notes";
  namespaces = text "private" ∷ [];
  device_status = DeviceStatus.active;
}

-- Another shard, with one term more of the query, so that it comes first although it is given last.
abbrev better_shard : DeviceShard
better_shard = record {
  device_id = text "device-2";
  state = ShardState.active;
  generation = 1;
  routing_terms = text "Rust traits";
  namespaces = [];
  device_status = DeviceStatus.active;
}

abbrev shards : List DeviceShard
shards = shard ∷ better_shard ∷ []

ranked :
    rank_shards (text "rust traits") (text "device-1") shards
    ≡ record { device_id = text "device-2"; score = 4 }
      ∷ record { device_id = text "device-1"; score = 3 }
      ∷ []
unfolding list_beq as_bytes bytes_le insert_by sort_by dedup is_ascii_alphanumeric
    to_ascii_lowercase split_tokens non_empty routing_tokens namespace_terms catalog_terms overlap
    score_shard rank_le rank_eligible rank_shards
ranked = refl

rank_shards-Pairwise_example :
    ((r : RankedShard)
      → Any (λ x. x ≡ r) (rank_shards (text "rust traits") (text "device-1") shards)
        ↔ Any
            (λ s.
              IsEligible s
              × (score_shard (routing_tokens (text "rust traits")) (text "device-1") s ≡ r))
            shards)
    × Pairwise IsBetter (rank_shards (text "rust traits") (text "device-1") shards)
rank_shards-Pairwise_example = rank_shards-Pairwise (text "rust traits") (text "device-1") shards

-- A result: its id, its content, and its score.
abbrev SearchResult : Type 0
SearchResult = Text × (Text × ℕ)

abbrev result_id : SearchResult → Text
result_id r = r.0

abbrev content : SearchResult → Text
content r = r.1.0

abbrev score_cmp : SearchResult → SearchResult → Ordering
score_cmp a b = compare a.1.1 b.1.1

abbrev hit : Text → Text → ℕ → RoutedSearchResult SearchResult
hit id body score = record {
  result = (id, (body, score));
  device_id = text "device-1";
  shard_generation = 1;
  child_receipt_id = none;
}

abbrev hits : List (RoutedSearchResult SearchResult)
hits =
    hit (text "a") (text "one") 5
    ∷ hit (text "b") (text "two") 9
    ∷ hit (text "a") (text "one") 7
    ∷ []

merged :
    merge_routed_results result_id content score_cmp hits 2
    ≡ ok (hit (text "b") (text "two") 9 ∷ hit (text "a") (text "one") 7 ∷ [])
unfolding list_beq as_bytes bytes_le insert_by sort_by get result_le check_conflicts emit
    merge_routed_results
merged = refl

abbrev score : SearchResult → ℕ
score r = r.1.1

less_iff : (a b : ℕ) → (compare a b ≡ Ordering.lt) ↔ (a < b)
less_iff a b = ground arith

equal_iff : (a b : ℕ) → (compare a b ≡ Ordering.eq) ↔ (a ≡ b)
equal_iff a b = ground arith

score-IsPlace : IsPlace result_id content score_cmp score
score-IsPlace = record {
  less = λ x y. less_iff (score x) (score y);
  equal = λ x y. equal_iff (score x) (score y);
}

some_hits :
    IsSelection result_id content score_cmp score 2 hits
      (hit (text "b") (text "two") 9 ∷ hit (text "a") (text "one") 7 ∷ [])
some_hits =
    (merge-IsSelection result_id content score_cmp score hits 2 score-IsPlace (omega arith)).1 _
      merged

abbrev uses : List (CacheUse ℕ)
uses = put (text "a") 1 ∷ put (text "b") 2 ∷ ask (text "a") ∷ put (text "c") 3 ∷ []

-- The store that was asked for last stays.
used :
    use_all uses (cache_new 2)
    ≡ some (record {
      capacity = 2;
      stores = (text "c", 3) ∷ (text "a", 1) ∷ [];
      lru = text "a" ∷ text "c" ∷ [];
      total_opens = 3;
    })
unfolding list_beq without Cache.get remove cache_new get_key evict insert_key use_one use_all
used = refl

use_all-IsCache_example :
    (c : ShardStoreCache ℕ) × (use_all uses (cache_new 2) ≡ some c)
    × IsCache c
    × ((c' : ShardStoreCache ℕ) × (insert_key (text "d") 4 c ≡ some c')
        × IsCache c'
        × (c'.capacity ≡ c.capacity)
        × (Cache.get (text "d") c'.stores ≡ some 4))
use_all-IsCache_example = use_all-IsCache 2 uses (text "d") 4
