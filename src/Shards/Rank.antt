-- ===== src/Shards/Rank.antt =====
-- src/shards.rs: the ranks are those of the eligible shards, best first.
use mnemes.Prelude.{
  ◌<◌, ◌≡◌, ◌∙◌, refl, ◌↔◌, ◌⊎◌, inl, inr, Bool, true, false, ◌||◌, ◌&&◌, List, [], ◌∷◌, Any, arith,
  ltb, nat_beq, if◌then◌else◌,
}
use mnemes.Prelude.Text.{Text, as_bytes}
use mnemes.Prelude.Sort.{
  Any-sort_by, sort_by-Ascending, bytes_le_total, bytes_le, text_le, text_le_trans, Pairwise,
  Ascending-Pairwise,
}
use mnemes.Identity.{DeviceStatus}
use mnemes.Shards.{
  ShardState, DeviceShard, RankedShard, eligible, score_shard, rank_eligible, rank_le, rank_shards,
  routing_tokens,
}

rank_le_total : (a b : RankedShard) → (rank_le a b ≡ true) ⊎ (rank_le b a ≡ true)
unfolding rank_le
rank_le_total a b =
    go (bytes_le (as_bytes a.device_id) (as_bytes b.device_id))
      (bytes_le (as_bytes b.device_id) (as_bytes a.device_id))
      (bytes_le_total (as_bytes a.device_id) (as_bytes b.device_id))
  where
    go :
        (p q : Bool)
        → (p ≡ true) ⊎ (q ≡ true)
        → ((ltb b.score a.score || nat_beq a.score b.score && p) ≡ true)
          ⊎ ((ltb a.score b.score || nat_beq b.score a.score && q) ≡ true)
    go p q h = ground arith

-- A shard may be searched: it is active, and so is its device.
pub record IsEligible (s : DeviceShard) : Type 0 where
  pub state : s.state ≡ ShardState.active
  pub device : s.device_status ≡ DeviceStatus.active

eligible_iff : (s : DeviceShard) → (eligible s ≡ true) ↔ IsEligible s
eligible_iff s = (
  λ h. record { state = ground arith; device = ground arith },
  λ w. let p = w.state in let q = w.device in simp (p, q) refl,
)

Any-rank_eligible :
    (terms : List Text) (requester : Text) (shards : List DeviceShard) (r : RankedShard)
    → Any (λ x. x ≡ r) (rank_eligible terms requester shards)
      ↔ Any (λ s. IsEligible s × (score_shard terms requester s ≡ r)) shards
unfolding rank_eligible
Any-rank_eligible terms requester [] r = (λ h. h, λ h. h)
Any-rank_eligible terms requester (s ∷ shards) r =
    go (eligible s) (eligible_iff s) (Any-rank_eligible terms requester shards r)
  where
    go :
        (b : Bool)
        → (b ≡ true) ↔ IsEligible s
        → Any (λ x. x ≡ r) (rank_eligible terms requester shards)
          ↔ Any (λ s. IsEligible s × (score_shard terms requester s ≡ r)) shards
        → Any
            (λ x. x ≡ r)
            (if b
              then score_shard terms requester s ∷ rank_eligible terms requester shards
              else rank_eligible terms requester shards)
          ↔ Any (λ s. IsEligible s × (score_shard terms requester s ≡ r)) (s ∷ shards)
    go true exact ih = (
      λ h. elim h [ inl e ↦ inl (exact.0 refl, e) | inr m ↦ inr (ih.0 m) ],
      λ h. elim h [ inl p ↦ inl p.1 | inr m ↦ inr (ih.1 m) ],
    )
    go false exact ih =
        (λ h. inr (ih.0 h), λ h. elim h [ inl p ↦ cc (exact.1 p.0) | inr m ↦ ih.1 m ])

-- A rank comes before another: its score is higher, or the scores are equal and its id, as bytes, is
-- not after the other's.
abbrev pub IsBetter : RankedShard → RankedShard → Type 0
IsBetter a b =
    (b.score < a.score) ⊎ ((a.score ≡ b.score) × (text_le a.device_id b.device_id ≡ true))

rank_le-IsBetter : (a b : RankedShard) → rank_le a b ≡ true → IsBetter a b
unfolding rank_le
rank_le-IsBetter a b h = go (text_le a.device_id b.device_id) h
  where
    go :
        (p : Bool)
        → (ltb b.score a.score || nat_beq a.score b.score && p) ≡ true
        → (b.score < a.score) ⊎ ((a.score ≡ b.score) × (p ≡ true))
    go p h = ground arith

IsBetter-trans : (a b c : RankedShard) → IsBetter a b → IsBetter b c → IsBetter a c
IsBetter-trans a b c (inl h) (inl k) = inl (omega arith)
IsBetter-trans a b c (inl h) (inr k) = inl (omega (arith, k.0))
IsBetter-trans a b c (inr h) (inl k) = inl (omega (arith, h.0))
IsBetter-trans a b c (inr h) (inr k) =
    inr (h.0 ∙ k.0, text_le_trans a.device_id b.device_id c.device_id h.1 k.1)

-- The ranks of a query are exactly the scores of the shards that are active and whose device is
-- active, and each rank has a higher score than every one after it, or the same score and an id that is
-- not after the other's.
pub rank_shards-Pairwise :
    (query requester : Text) (shards : List DeviceShard)
    → ((r : RankedShard)
        → Any (λ x. x ≡ r) (rank_shards query requester shards)
          ↔ Any (λ s. IsEligible s × (score_shard (routing_tokens query) requester s ≡ r)) shards)
      × Pairwise IsBetter (rank_shards query requester shards)
unfolding rank_shards
rank_shards-Pairwise query requester shards =
    let found = rank_eligible (routing_tokens query) requester shards in
    (
      λ r.
          let sorted = Any-sort_by rank_le (λ x. x ≡ r) found in
          let exact = Any-rank_eligible (routing_tokens query) requester shards r in
          (λ h. exact.0 (sorted.0 h), λ h. sorted.1 (exact.1 h)),
      Ascending-Pairwise rank_le IsBetter rank_le-IsBetter IsBetter-trans _
          (sort_by-Ascending rank_le rank_le_total found),
    )
