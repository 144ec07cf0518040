-- ===== src/Replication/StateMachine.antt =====
-- src/replication/state_machine.rs: the states of a replica, its watermark, and the test that two
-- envelopes of one identity are one envelope.
pub mod Runs
pub mod Watermark
pub mod Collision
use Prim.Native.Nat.{◌^◌}
use mnemes.Prelude.{
  ℕ, ◌+◌, Bool, true, false, not, Option, none, some, ltb, leb, ◌==◌, nat_eq, list_eq,
  if◌then◌else◌, ok, err, ◌>>=◌, ◌>>◌, map_err,
}
use mnemes.Prelude.Bytes.{Bytes}
use mnemes.Replication.Error.{
  ReplicationError, pre_collision_validation, first_envelope, second_envelope, identity_collision,
}
use mnemes.Replication.Envelope.{MemoryMutationEnvelopeV1, same_identity}
use mnemes.Replication.Crypto.{Crypto}
use mnemes.Replication.Canonical.{Check, validate_envelope, canonical_digest}

pub data ReplicaState : Type 0 where
  bootstrapping installing_snapshot catching_up current lagging offline_usable : ReplicaState
  awaiting_gap gap_detected quarantined rejected retired : ReplicaState

unfoldable pub can_transition_to : ReplicaState → ReplicaState → Bool
can_transition_to rejected rejected = true
can_transition_to retired retired = true
can_transition_to bootstrapping installing_snapshot = true
can_transition_to bootstrapping quarantined = true
can_transition_to bootstrapping rejected = true
can_transition_to bootstrapping retired = true
can_transition_to installing_snapshot catching_up = true
can_transition_to installing_snapshot quarantined = true
can_transition_to installing_snapshot rejected = true
can_transition_to installing_snapshot retired = true
can_transition_to catching_up current = true
can_transition_to catching_up awaiting_gap = true
can_transition_to catching_up quarantined = true
can_transition_to catching_up retired = true
can_transition_to current lagging = true
can_transition_to current offline_usable = true
can_transition_to current installing_snapshot = true
can_transition_to current quarantined = true
can_transition_to current retired = true
can_transition_to lagging current = true
can_transition_to lagging awaiting_gap = true
can_transition_to lagging installing_snapshot = true
can_transition_to lagging quarantined = true
can_transition_to lagging retired = true
can_transition_to offline_usable current = true
can_transition_to offline_usable awaiting_gap = true
can_transition_to offline_usable installing_snapshot = true
can_transition_to offline_usable quarantined = true
can_transition_to offline_usable retired = true
can_transition_to awaiting_gap catching_up = true
can_transition_to awaiting_gap gap_detected = true
can_transition_to awaiting_gap quarantined = true
can_transition_to awaiting_gap retired = true
can_transition_to gap_detected installing_snapshot = true
can_transition_to gap_detected quarantined = true
can_transition_to gap_detected rejected = true
can_transition_to gap_detected retired = true
can_transition_to quarantined installing_snapshot = true
can_transition_to quarantined rejected = true
can_transition_to quarantined retired = true
can_transition_to _ _ = false

pub record ReplicaWatermarkV1 : Type 0 where
  pub sequence : ℕ  -- u64
  pub head_digest : Bytes  -- [u8; 32]

abbrev pub watermark_new : ℕ → Bytes → ReplicaWatermarkV1
watermark_new sequence head_digest = record { sequence = sequence; head_digest = head_digest }

-- `u64::checked_add`
checked_add : ℕ → ℕ → Option ℕ
checked_add a b = if ltb (a + b) (2 ^ 64) then some (a + b) else none

hop_ok : Option ℕ → ℕ → Bool → Bool
hop_ok none sequence linked = false
hop_ok (some next) sequence linked = if sequence == next then linked else false

unfoldable pub accepts_next : ReplicaWatermarkV1 → ℕ → Bytes → Bool
unfolding checked_add hop_ok
accepts_next w sequence previous =
    if leb sequence w.sequence
    then false
    else hop_ok (checked_add w.sequence 1) sequence (previous == w.head_digest)

module _ (c : Crypto) where
  unfoldable pub validate_identity_collision :
      MemoryMutationEnvelopeV1 → MemoryMutationEnvelopeV1 → Check
  validate_identity_collision first second = do
    map_err (λ e. pre_collision_validation (first_envelope e)) (validate_envelope c first)
    map_err (λ e. pre_collision_validation (second_envelope e)) (validate_envelope c second)
    if not (same_identity first second) then ok tt else do
      first_digest ← canonical_digest c first
      second_digest ← canonical_digest c second
      if first_digest == second_digest then ok tt else err identity_collision
