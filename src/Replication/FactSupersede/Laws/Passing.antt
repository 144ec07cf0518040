-- ===== src/Replication/FactSupersede/Laws/Passing.antt =====
-- src/replication/fact_supersede.rs: a request that validates passes its owner's envelope on.
use mnemes.Prelude.{
  ◌≡◌, refl, sym, ap, ◌∙◌, ◌↔◌, ◌⊎◌, inl, inr, List, [], ◌∷◌, none, some, Result, ok, err, ◌>>=◌,
  >>=-eq-ok, map_err,
}
use mnemes.Prelude.Bytes.{Bytes}
use mnemes.Replication.Error.{ReplicationError, pre_collision_validation, caused}
use mnemes.Replication.Crypto.{Crypto}
use mnemes.Replication.Canonical.{Check}
use mnemes.Replication.Transport.{FactSupersedeOwner}
use mnemes.Replication.FactSupersede.{
  FactSupersedeTransportEntryV1, SignedFactSupersedeBatchV1, validate_structure,
  check_batch_signature, from_owner_envelope, signing_preimage, validate, semantic_envelope,
  replacement_namespace, owner_payload, first_entry, projected_namespace, returned,
}
use mnemes.Replication.FactSupersede.Laws.{IsRequest, structure_iff}

map_err_ok {ℓ} :
    {E F : Type 0} {A : Type ℓ} (f : E → F) (r : Result E A) {a : A} → map_err f r ≡ ok a → r ≡ ok a
map_err_ok f (ok a) h = cc
map_err_ok f (err e) h = cc

module _ (o : FactSupersedeOwner) (c : Crypto) where
  -- The signature of the request verifies on its preimage under the key that it carries.
  pub record IsSigned (b : SignedFactSupersedeBatchV1 o) : Type 0 where
    pub key : c.VerifyingKey
    pub decoded : c.from_bytes b.signer_public_key ≡ ok key
    pub preimage : Bytes
    pub encodes : signing_preimage o b ≡ ok preimage
    pub verifies : c.verify key preimage b.signature ≡ ok tt

  signed : (b : SignedFactSupersedeBatchV1 o) → check_batch_signature o c b ≡ ok tt → IsSigned b
  unfolding check_batch_signature
  signed b h =
      let (key, decoded, rest) = >>=-eq-ok (map_err _ (c.from_bytes b.signer_public_key)) _ h in
      let (preimage, encodes, last) = >>=-eq-ok (signing_preimage o b) _ rest in
      record {
        key = key;
        decoded = map_err_ok _ _ decoded;
        preimage = preimage;
        encodes = encodes;
        verifies = map_err_ok _ _ last;
      }

  signed_iff :
      (b : SignedFactSupersedeBatchV1 o) → (check_batch_signature o c b ≡ ok tt) ↔ IsSigned b
  unfolding check_batch_signature
  signed_iff b = (signed b, λ s. rw s.decoded (rw s.encodes (rw s.verifies refl)))

  -- The request is of the profile, its owner accepts the envelope, and its signature verifies.
  pub record Passes (b : SignedFactSupersedeBatchV1 o) (envelope : o.ReplicaEnvelope) : Type 0 where
    pub request : IsRequest o b
    pub only : b.entries ≡ from_owner_envelope o envelope ∷ []
    pub payload : Bytes
    pub owner : o.validate_replica_envelope envelope ≡ ok payload
    pub signature : IsSigned b

  -- What is left of validation when the structure test passed.
  owner_tests : SignedFactSupersedeBatchV1 o → o.ReplicaEnvelope → Check
  owner_tests b envelope =
      map_err
        (λ e.
          pre_collision_validation (caused "semantic-memory fact-supersede validation failed" e))
        (o.validate_replica_envelope envelope)
      >>= λ payload. check_batch_signature o c b

  validate_after_structure :
      (b : SignedFactSupersedeBatchV1 o) (x : FactSupersedeTransportEntryV1 o)
      → validate_structure o b ≡ ok tt
      → b.entries ≡ x ∷ []
      → validate o c b ≡ some (owner_tests b x.owner_envelope)
  unfolding validate owner_payload first_entry owner_tests
  validate_after_structure b x h e = simp (h, e)

  validate_refused :
      (b : SignedFactSupersedeBatchV1 o) {x : ReplicationError}
      → validate_structure o b ≡ err x
      → validate o c b ≡ some (err x)
  unfolding validate
  validate_refused b h = rw h refl

  structure_cases :
      (b : SignedFactSupersedeBatchV1 o)
      → ((x : ReplicationError) × (validate_structure o b ≡ err x))
        ⊎ (validate_structure o b ≡ ok tt)
  structure_cases b = go (validate_structure o b)
    where
      go : (v : Check) → ((x : ReplicationError) × (v ≡ err x)) ⊎ (v ≡ ok tt)
      go (err x) = inl (x, refl)
      go (ok u) = inr refl

  -- `entries[0]` never panics after the structure test: validation always returns.
  pub validate_total :
      (b : SignedFactSupersedeBatchV1 o) → (verdict : Check) × (validate o c b ≡ some verdict)
  validate_total b = elim (structure_cases b) [
    | inl (x, h) ↦ (_, validate_refused b h)
    | inr h ↦
        let w = ((structure_iff o b).0 h).binds in (_, validate_after_structure b w.entry h w.only)
  ]

  semantic_envelope_lem :
      (b : SignedFactSupersedeBatchV1 o) (x : FactSupersedeTransportEntryV1 o) {v : Check}
      → validate o c b ≡ some v
      → b.entries ≡ x ∷ []
      → semantic_envelope o c b ≡ returned o c (some v) (some x.owner_envelope)
  unfolding semantic_envelope first_entry
  semantic_envelope_lem b x h e = simp (h, e)

  refused_envelope :
      (b : SignedFactSupersedeBatchV1 o) {e : ReplicationError}
      → validate o c b ≡ some (err e)
      → semantic_envelope o c b ≡ some (err e)
  unfolding semantic_envelope returned
  refused_envelope b h = simp (h)

  owner_tests_iff :
      (b : SignedFactSupersedeBatchV1 o) (envelope : o.ReplicaEnvelope)
      → (owner_tests b envelope ≡ ok tt)
        ↔ (((payload : Bytes) × (o.validate_replica_envelope envelope ≡ ok payload)) × IsSigned b)
  unfolding owner_tests
  owner_tests_iff b envelope = (
    λ h.
        let (payload, accepted, last) =
          >>=-eq-ok (map_err _ (o.validate_replica_envelope envelope)) _ h in
        ((payload, map_err_ok _ _ accepted), (signed_iff b).0 last),
    λ ((payload, accepted), s). rw accepted ((signed_iff b).1 s),
  )

  returned_ok :
      (v : Check) (x envelope : o.ReplicaEnvelope)
      → (returned o c (some v) (some x) ≡ some (ok envelope)) ↔ ((v ≡ ok tt) × (x ≡ envelope))
  unfolding returned
  returned_ok (err e) x envelope = (λ h. cc, λ h. cc)
  returned_ok (ok tt) x envelope = (λ h. (refl, cc), λ h. rw h.1 refl)

  -- `semantic_envelope` gives an envelope exactly when the request is well formed, holds this envelope
  -- alone, the owner accepts it, and the request's signature verifies under the key that it carries.
  pub semantic_envelope_iff :
      (b : SignedFactSupersedeBatchV1 o) (envelope : o.ReplicaEnvelope)
      → (semantic_envelope o c b ≡ some (ok envelope)) ↔ Passes b envelope
  semantic_envelope_iff b envelope = (
    λ h. elim (structure_cases b) [
      | inl (x, refused) ↦ cc (refused_envelope b (validate_refused b refused))
      | inr passed ↦
          let w = (structure_iff o b).0 passed in
          let e = w.binds.entry in
          let run =
            semantic_envelope_lem b e (validate_after_structure b e passed w.binds.only)
              w.binds.only in
          let (accepted, same) =
            (returned_ok (owner_tests b e.owner_envelope) e.owner_envelope envelope).0
              (sym run ∙ h) in
          let ((payload, owner), s) = (owner_tests_iff b e.owner_envelope).0 accepted in
          record {
            request = w;
            only = w.binds.only ∙ ap (λ x. from_owner_envelope o x ∷ []) same;
            payload = payload;
            owner = rw⁻¹ same owner;
            signature = s;
          }
    ],
    λ p.
        let passed = (structure_iff o b).1 p.request in
        let e = from_owner_envelope o envelope in
        semantic_envelope_lem b e (validate_after_structure b e passed p.only) p.only
        ∙ (returned_ok (owner_tests b envelope) envelope envelope).1
            ((owner_tests_iff b envelope).1 ((p.payload, p.owner), p.signature), refl),
  )

module _ (o : FactSupersedeOwner) where
  entry_cases :
      (es : List (FactSupersedeTransportEntryV1 o))
      → (es ≡ [])
        ⊎ ((x : FactSupersedeTransportEntryV1 o) × (xs : List (FactSupersedeTransportEntryV1 o))
            × (es ≡ x ∷ xs))
  entry_cases [] = inl refl
  entry_cases (x ∷ xs) = inr (x, xs, refl)

  returns :
      (b : SignedFactSupersedeBatchV1 o) (x : FactSupersedeTransportEntryV1 o)
      (xs : List (FactSupersedeTransportEntryV1 o))
      → b.entries ≡ x ∷ xs
      → replacement_namespace o b
        ≡ some (
            projected_namespace o (
              map_err
                (λ e. pre_collision_validation (caused "" e))
                (o.validate_replica_envelope x.owner_envelope)))
  unfolding replacement_namespace owner_payload first_entry
  returns b x xs e = simp (e)

  panics : (b : SignedFactSupersedeBatchV1 o) → b.entries ≡ [] → replacement_namespace o b ≡ none
  unfolding replacement_namespace owner_payload first_entry
  panics b e = simp (e)

  -- The namespace of the replacement is read from the first entry with no test before it: of a
  -- request without entries the read panics, and of every other it returns.
  pub replacement_namespace_panics :
      (b : SignedFactSupersedeBatchV1 o) → (replacement_namespace o b ≡ none) ↔ (b.entries ≡ [])
  replacement_namespace_panics b = elim (entry_cases b.entries) [
    | inl e ↦ (λ h. e, λ h. panics b e)
    | inr (x, xs, e) ↦ (λ h. cc (returns b x xs e), λ h. cc)
  ]
