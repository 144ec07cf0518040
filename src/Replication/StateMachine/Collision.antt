-- ===== src/Replication/StateMachine/Collision.antt =====
-- src/replication/state_machine.rs: what a passed, and what a failed collision test shows.
use mnemes.Prelude.{
  ◌≡◌, ◌≢◌, refl, ◌∙◌, ◌⊎◌, true, false, Bool, not, ok, err, ◌>>=◌, >>=-eq-ok, map_err, Result,
  if◌then◌else◌, ◌==◌, list_eq, list_beq_iff, arith,
}
use mnemes.Prelude.Bytes.{Bytes}
use mnemes.Replication.Error.{ReplicationError, identity_collision}
use mnemes.Replication.Envelope.{MemoryMutationEnvelopeV1, IsTyped, same_identity}
use mnemes.Replication.Envelope.Laws.{SameSigned}
use mnemes.Replication.Envelope.Identity.{SharesIdentity, same_identity_iff}
use mnemes.Replication.Crypto.{Crypto}
use mnemes.Replication.Canonical.{Check, validate_envelope, canonical_digest}
use mnemes.Replication.Canonical.Laws.{IsValid, validate_envelope_iff}
use mnemes.Replication.Canonical.Digest.{Collision, canonical_digest_binds, digest_of_valid}
use mnemes.Replication.StateMachine.{validate_identity_collision}

validated : (m : Check) (f : ReplicationError → ReplicationError) → map_err f m ≡ ok tt → m ≡ ok tt
validated (ok x) f h = refl
validated (err x) f h = cc

abbrev compare_digests : Result ReplicationError Bytes → Result ReplicationError Bytes → Check
compare_digests r s = r >>= λ x. s >>= λ y. if x == y then ok tt else err identity_collision

digests_agree :
    (r s : Result ReplicationError Bytes)
    → compare_digests r s ≡ ok tt
    → (d : Bytes) × (r ≡ ok d) × (s ≡ ok d)
digests_agree (ok x) (ok y) h = (x, refl, ground (arith, list_beq_iff x y))
digests_agree (ok x) (err e) h = cc
digests_agree (err e) s h = cc

abbrev verdict_of : Bool → Bytes → Bytes → Check
verdict_of same da db = if same then (if da == db then ok tt else err identity_collision) else ok tt

accepted : (same : Bool) (da db : Bytes) → (same ≡ true → da ≡ db) → verdict_of same da db ≡ ok tt
accepted true da db f = rw ((list_beq_iff da db).1 (f refl))
accepted false da db f = refl

module _ (c : Crypto) (a b : MemoryMutationEnvelopeV1) where
  shared :
      (same : Bool)
      → (if not same then ok tt else compare_digests (canonical_digest c a) (canonical_digest c b))
        ≡ ok tt
      → same ≡ true
      → (d : Bytes) × (canonical_digest c a ≡ ok d) × (canonical_digest c b ≡ ok d)
  shared true h e = digests_agree (canonical_digest c a) (canonical_digest c b) h
  shared false h e = cc

  -- When the collision test passes, both envelopes are valid, and if they share an identity they
  -- agree in every signed field, or the hash has a collision.
  pub validate_identity_collision_sound :
      IsTyped a
      → IsTyped b
      → validate_identity_collision c a b ≡ ok tt
      → IsValid c a × IsValid c b × (SharesIdentity a b → SameSigned a b ⊎ Collision c a b)
  unfolding validate_identity_collision
  validate_identity_collision_sound ta tb h =
      let (_, first, h') = >>=-eq-ok (map_err _ (validate_envelope c a)) _ h in
      let (_, second, h'') = >>=-eq-ok (map_err _ (validate_envelope c b)) _ h' in
      (
        (validate_envelope_iff c a).0 (validated _ _ first),
        (validate_envelope_iff c b).0 (validated _ _ second),
        λ same.
            let (d, da, db) = shared (same_identity a b) h'' ((same_identity_iff a b).1 same) in
            canonical_digest_binds c a b ta tb da db,
      )

  accept : {m : Check} (f : ReplicationError → ReplicationError) → m ≡ ok tt → map_err f m ≡ ok tt
  accept f h = rw h

  decided :
      (same : Bool) (da db : Bytes)
      → canonical_digest c a ≡ ok da
      → canonical_digest c b ≡ ok db
      → (if not same then ok tt else compare_digests (canonical_digest c a) (canonical_digest c b))
        ≡ verdict_of same da db
  decided true da db ha hb = rw (ha, hb)
  decided false da db ha hb = refl

  outcome :
      (da db : Bytes)
      → IsValid c a
      → IsValid c b
      → canonical_digest c a ≡ ok da
      → canonical_digest c b ≡ ok db
      → validate_identity_collision c a b ≡ verdict_of (same_identity a b) da db
  unfolding validate_identity_collision
  outcome da db va vb ha hb =
      rw ((validate_envelope_iff c a).1 va, (validate_envelope_iff c b).1 vb)
        (decided (same_identity a b) da db ha hb)

  -- Of two valid envelopes the test returns a verdict: a conflict when they share an identity and
  -- their digests differ, and success in every other case.
  pub validate_identity_collision_total :
      IsValid c a
      → IsValid c b
      → (da : Bytes) × (db : Bytes) × (canonical_digest c a ≡ ok da)
        × (canonical_digest c b ≡ ok db)
        × (SharesIdentity a b
            → da ≢ db
            → validate_identity_collision c a b ≡ err identity_collision)
        × ((SharesIdentity a b → da ≡ db) → validate_identity_collision c a b ≡ ok tt)
  validate_identity_collision_total va vb =
      let (da, ha) = digest_of_valid c a va in
      let (db, hb) = digest_of_valid c b vb in
      let verdict = outcome da db va vb ha hb in
      let same = same_identity_iff a b in
      (
        da,
        db,
        ha,
        hb,
        λ s ne. verdict ∙ rw (same.1 s) (ground (arith, list_beq_iff da db)),
        λ f. verdict ∙ accepted (same_identity a b) da db (λ e. f (same.0 e)),
      )
