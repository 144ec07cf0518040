-- ===== src/Replication/StateMachine/Watermark.antt =====
-- src/replication/state_machine.rs: a watermark accepts one next hop, and a chain has no gaps.
use Prim.Native.Nat.{◌^◌}
use mnemes.Prelude.{ℕ, ◌+◌, ◌<◌, ◌≡◌, ◌↔◌, true, List, [], ◌∷◌, arith, length, list_beq_iff}
use mnemes.Prelude.Bytes.{Bytes}
use mnemes.Replication.StateMachine.{ReplicaWatermarkV1, watermark_new, accepts_next}

-- A hop is accepted exactly when it has the next sequence number, which is still a u64, and links
-- to the head.
pub accepts_next_iff :
    (w : ReplicaWatermarkV1) (sequence : ℕ) (previous : Bytes)
    → (accepts_next w sequence previous ≡ true)
      ↔ ((sequence ≡ w.sequence + 1) × (sequence < 2 ^ 64) × (previous ≡ w.head_digest))
unfolding accepts_next
accepts_next_iff w sequence previous = ground (arith, list_beq_iff previous w.head_digest)

-- One hop: the sequence and predecessor that an envelope claims, and its own digest.
pub record Hop : Type 0 where
  pub sequence : ℕ
  pub previous : Bytes
  pub digest : Bytes

abbrev pub after : Hop → ReplicaWatermarkV1
after h = watermark_new h.sequence h.digest

-- Every hop is accepted by the watermark that the one before it leaves.
abbrev pub Follows : ReplicaWatermarkV1 → List Hop → Type 0
Follows w [] = Unit
Follows w (h ∷ hs) = (accepts_next w h.sequence h.previous ≡ true) × Follows (after h) hs

abbrev pub end : ReplicaWatermarkV1 → List Hop → ReplicaWatermarkV1
end w [] = w
end w (h ∷ hs) = end (after h) hs

-- After any chain of accepted hops the watermark has moved by the number of the hops, without a gap
-- and without a wrap of the u64.
pub sequence-end :
    (w : ReplicaWatermarkV1) (hs : List Hop)
    → w.sequence < 2 ^ 64
    → Follows w hs
    → ((end w hs).sequence ≡ w.sequence + length hs) × ((end w hs).sequence < 2 ^ 64)
sequence-end w [] fits f = omega arith
sequence-end w (h ∷ hs) fits (now, f) =
    let hop = (accepts_next_iff w h.sequence h.previous).0 now in
    let rest = sequence-end (after h) hs hop.1 f in omega arith
