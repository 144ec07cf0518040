-- ===== src/Replication/StateMachine/Runs.antt =====
-- src/replication/state_machine.rs: runs of legal transitions.
use mnemes.Prelude.{◌≡◌, refl, ◌∙◌, ◌⊎◌, inl, inr, true, List, [], ◌∷◌, Any, arith}
use mnemes.Replication.StateMachine.{
  ReplicaState, bootstrapping, installing_snapshot, catching_up, current, lagging, offline_usable,
  awaiting_gap, gap_detected, quarantined, rejected, retired, can_transition_to,
}

-- The states that a replica goes through after `s`, each by a legal transition.
abbrev pub Run : ReplicaState → List ReplicaState → Type 0
Run s [] = Unit
Run s (t ∷ ts) = (can_transition_to s t ≡ true) × Run t ts

abbrev pub last : ReplicaState → List ReplicaState → ReplicaState
last s [] = s
last s (t ∷ ts) = last t ts

-- States that hold no snapshot to be trusted.
pub data Untrusted : ReplicaState → Type 0 where
  new : Untrusted bootstrapping
  gap : Untrusted gap_detected
  suspect : Untrusted quarantined
  refused : Untrusted rejected
  closed : Untrusted retired

ruleset untrusted = (new, gap, suspect, refused, closed)

can_transition_to-Untrusted :
    {s : ReplicaState} (t : ReplicaState)
    → Untrusted s
    → can_transition_to s t ≡ true
    → (t ≡ installing_snapshot) ⊎ Untrusted t
unfolding can_transition_to
can_transition_to-Untrusted t new h = grind (arith, untrusted)
can_transition_to-Untrusted t gap h = grind (arith, untrusted)
can_transition_to-Untrusted t suspect h = grind (arith, untrusted)
can_transition_to-Untrusted t refused h = grind (arith, untrusted)
can_transition_to-Untrusted t closed h = grind (arith, untrusted)

-- A replica that is new, has detected a gap or is quarantined reaches a state other than those and
-- the terminal ones only by way of a snapshot installation.
pub needs_snapshot :
    (s : ReplicaState) (ts : List ReplicaState)
    → Untrusted s
    → Run s ts
    → Any (λ t. t ≡ installing_snapshot) ts ⊎ Untrusted (last s ts)
needs_snapshot s [] u r = inr u
needs_snapshot s (t ∷ ts) u (step, r) = elim (can_transition_to-Untrusted t u step) [
  | inl here ↦ inl (inl here)
  | inr u' ↦ elim (needs_snapshot t ts u' r) [ inl later ↦ inl (inr later) | inr out ↦ inr out ]
]

stays_terminal :
    (s t : ReplicaState) → (s ≡ rejected) ⊎ (s ≡ retired) → can_transition_to s t ≡ true → t ≡ s
unfolding can_transition_to
stays_terminal s t e h = ground arith

never_left :
    (s : ReplicaState) (ts : List ReplicaState)
    → (s ≡ rejected) ⊎ (s ≡ retired)
    → Run s ts
    → last s ts ≡ s
never_left s [] e r = refl
never_left s (t ∷ ts) e (step, r) =
    let same = stays_terminal s t e step in never_left t ts (rw same e) r ∙ same

-- The terminal states are never left, and any other state has a legal run back to `current`.
pub terminal_or_recoverable :
    (s : ReplicaState)
    → (((s ≡ rejected) ⊎ (s ≡ retired)) × ((ts : List ReplicaState) → Run s ts → last s ts ≡ s))
      ⊎ ((ts : List ReplicaState) × Run s ts × (last s ts ≡ current))
unfolding can_transition_to
terminal_or_recoverable bootstrapping =
    inr (installing_snapshot ∷ catching_up ∷ current ∷ [], (refl, (refl, (refl, tt))), refl)
terminal_or_recoverable installing_snapshot =
    inr (catching_up ∷ current ∷ [], (refl, (refl, tt)), refl)
terminal_or_recoverable catching_up = inr (current ∷ [], (refl, tt), refl)
terminal_or_recoverable current = inr ([], tt, refl)
terminal_or_recoverable lagging = inr (current ∷ [], (refl, tt), refl)
terminal_or_recoverable offline_usable = inr (current ∷ [], (refl, tt), refl)
terminal_or_recoverable awaiting_gap = inr (catching_up ∷ current ∷ [], (refl, (refl, tt)), refl)
terminal_or_recoverable gap_detected =
    inr (installing_snapshot ∷ catching_up ∷ current ∷ [], (refl, (refl, (refl, tt))), refl)
terminal_or_recoverable quarantined =
    inr (installing_snapshot ∷ catching_up ∷ current ∷ [], (refl, (refl, (refl, tt))), refl)
terminal_or_recoverable rejected = inl (inl refl, λ ts. never_left rejected ts (inl refl))
terminal_or_recoverable retired = inl (inr refl, λ ts. never_left retired ts (inr refl))
