-- ===== src/Registry/Snapshots/Laws.antt =====
-- src/store.rs: a snapshot admits only what may be accessed, it validates itself, and a permit stays
-- within it.
use mnemes.Prelude.{
  ℕ, ◌<◌, ◌≤◌, ◌+◌, ◌≡◌, refl, sym, ap, ◌∙◌, ◌&&◌, ◌==◌, inl, inr, Bool, true, Bool-cases, Option,
  Option-cases, none, some, List, [], ◌∷◌, All, All-imp, All-map, Any, arith, list_eq, list_beq_iff,
  nat_eq, then_iff, ◌!=◌, reject_if, reject_ne_iff, ok, >>=-eq-ok, ok_injective,
}
use mathlib.Core.Path.{subst}
use mnemes.Prelude.Bytes.{Bytes}
use mnemes.Prelude.Text.{Text}
use mnemes.Prelude.Sort.{All-sort_by, sort_by}
use mnemes.Profiles.Scope.{MemoryStoreIdentity, parse_profile_id}
use mnemes.Profiles.Access.{MemoryAccessEffect}
use mnemes.Profiles.Binding.{ActorProfileBinding}
use mnemes.Profiles.Digest.{digest_fields, field_bytes}
use mnemes.Profiles.Snapshot.{
  AuthorizedMemoryStore, AuthorizationSnapshot, MemoryAccessPermit, snapshot_new, snapshot_validate,
  sorted_stores, with_sorted_grants, permit_new, policy_version, snapshot_domain, snapshot_fields,
  snapshot_expected_digest,
}
use mnemes.Registry.{find_row, select}
use mnemes.Registry.Bindings.{resolve_actor_profile}
use mnemes.Registry.Bindings.Apart.{NoOverlap}
use mnemes.Registry.Bindings.Laws.{resolve-IsAdmitted}
use mnemes.Registry.Snapshots.{
  Reads, is_open_store, store_le, consider, consider_all, push, saturating_add, admitted_store,
  build_authorization_snapshot, validate_authorization_snapshot, issue_memory_access_permit,
}
use mnemes.Registry.Snapshots.Admission.{
  IsAuthorized, admit_store-Pushes, sorted-IsAuthorized, select-All, min_lem,
}

push-All :
    {P : AuthorizedMemoryStore → Type 0} (o : Option AuthorizedMemoryStore)
    (rest : List AuthorizedMemoryStore)
    → ((a : AuthorizedMemoryStore) → o ≡ some a → P a)
    → All P rest
    → All P (push o rest)
push-All none rest h all = all
push-All (some a) rest h all = (h a refl, all)

module _ (reads : Reads) (binding : ActorProfileBinding) (effect : MemoryAccessEffect)
    (requested : List Text) (at : ℕ) (running : at < binding.expires_at) where
  consider_all-IsAuthorized :
      (stores : List MemoryStoreIdentity) (out : List AuthorizedMemoryStore)
      → All
          (λ s. (is_open_store reads.stores s ≡ true) × Any (λ x. x ≡ s) reads.stores.memory_stores)
          stores
      → consider_all binding effect requested at reads stores ≡ ok out
      → All (IsAuthorized reads binding effect requested at) out
  unfolding consider_all consider
  consider_all-IsAuthorized [] out open_stores h = subst (All _) (ok_injective h) tt
  consider_all-IsAuthorized (s ∷ stores) out open_stores h =
      let (o, here, h1) = >>=-eq-ok (consider binding effect requested at reads s) _ h in
      let (rest, there, h2) =
        >>=-eq-ok (consider_all binding effect requested at reads stores) _ h1 in
      let (p, parsed, admitted) = >>=-eq-ok (parse_profile_id s.profile_id.as_str) _ here in
      subst (All (IsAuthorized reads binding effect requested at)) (ok_injective h2) (
        push-All o rest
          (admit_store-Pushes reads binding effect requested at s p o running open_stores.0 parsed
            admitted)
          (consider_all-IsAuthorized stores rest open_stores.1 there))

  admitted-IsAuthorized :
      (out : List AuthorizedMemoryStore)
      → consider_all binding effect requested at reads
          (sort_by store_le (select (is_open_store reads.stores) reads.stores.memory_stores))
        ≡ ok out
      → All (IsAuthorized reads binding effect requested at) (sorted_stores out)
  unfolding sorted_stores
  admitted-IsAuthorized out h = All-map _ with_sorted_grants _ (
      All-sort_by _ _ out (
        All-imp out (sorted-IsAuthorized reads binding effect requested at) (
          consider_all-IsAuthorized _ out
            (All-sort_by store_le _ _
              (select-All (is_open_store reads.stores) reads.stores.memory_stores))
            h)))

-- Where the bindings do not overlap, a snapshot that is built for an actor at a time is that of a
-- stored binding of the actor that is in force and admitted, and every store in it is authorized:
-- stored, open, asked for, within what the stored grants allow the profile, with an authorization
-- that has not ended and ends no later than the binding. Each of these is as its own read has it; others
-- may write between the reads.
pub build-IsAuthorized :
    (sha256_hex : Bytes → Text) (id actor_id : Text) (effect : MemoryAccessEffect)
    (requested : List Text) (at : ℕ) (reads : Reads) (s : AuthorizationSnapshot)
    → NoOverlap reads.binding.actor_profile_bindings
    → build_authorization_snapshot sha256_hex id actor_id effect requested at reads ≡ ok s
    → (b : ActorProfileBinding) × (resolve_actor_profile sha256_hex actor_id at reads.binding
        ≡ ok b)
      × (s.subject_profile_id ≡ b.profile_id)
      × (s.binding_digest ≡ b.binding_digest)
      × (s.evaluated_at ≡ at)
      × All (IsAuthorized reads b effect requested at) s.authorized_stores
unfolding build_authorization_snapshot snapshot_new
build-IsAuthorized sha256_hex id actor_id effect requested at reads s apart h =
    let (b, resolved, h1) =
      >>=-eq-ok (resolve_actor_profile sha256_hex actor_id at reads.binding) _ h in
    let (stores, collected, h2) =
      >>=-eq-ok
        (consider_all b effect requested at reads
          (sort_by store_le (select (is_open_store reads.stores) reads.stores.memory_stores)))
        _ h1 in
    let (row, here, admitted) =
      resolve-IsAdmitted sha256_hex reads.binding actor_id at b apart resolved in
    let running : at < b.expires_at =
      subst (λ (x : ActorProfileBinding). at < x.expires_at) (sym admitted.same)
        here.force.running in
    let e = ok_injective h2 in
    (
      b,
      resolved,
      ap (λ (x : AuthorizationSnapshot). x.subject_profile_id) (sym e),
      ap (λ (x : AuthorizationSnapshot). x.binding_digest) (sym e),
      ap (λ (x : AuthorizationSnapshot). x.evaluated_at) (sym e),
      subst
          (λ (x : AuthorizationSnapshot).
            All (IsAuthorized reads b effect requested at) x.authorized_stores)
          e (admitted-IsAuthorized reads b effect requested at running stores collected),
    )

-- A snapshot of this time whose digest is the digest of its own fields, under the present policy, and
-- is that of the snapshot that is built from the rows that are read: the encodings of their fields have
-- one hash.
pub record IsCurrent (sha256_hex : Bytes → Text) (id : Text) (s : AuthorizationSnapshot) (at : ℕ)
    (reads : Reads) : Type 0 where
  pub timed : s.evaluated_at ≡ at
  pub policy : s.policy_version ≡ policy_version
  pub sealed : s.snapshot_digest ≡ snapshot_expected_digest sha256_hex s
  pub current : AuthorizationSnapshot
  pub built :
      build_authorization_snapshot sha256_hex id s.actor_id s.effect s.namespaces at reads
      ≡ ok current
  pub same_digest : current.snapshot_digest ≡ s.snapshot_digest
  pub same_hash :
      sha256_hex (field_bytes (snapshot_domain ∷ snapshot_fields current))
      ≡ sha256_hex (field_bytes (snapshot_domain ∷ snapshot_fields s))

built_digest :
    (sha256_hex : Bytes → Text) (id actor_id : Text) (effect : MemoryAccessEffect)
    (namespaces : List Text) (at : ℕ) (reads : Reads) (s : AuthorizationSnapshot)
    → build_authorization_snapshot sha256_hex id actor_id effect namespaces at reads ≡ ok s
    → s.snapshot_digest ≡ snapshot_expected_digest sha256_hex s
unfolding build_authorization_snapshot snapshot_new snapshot_expected_digest
built_digest sha256_hex id actor_id effect namespaces at reads s h =
    let (b, resolved, h1) =
      >>=-eq-ok (resolve_actor_profile sha256_hex actor_id at reads.binding) _ h in
    let (stores, collected, h2) =
      >>=-eq-ok
        (consider_all b effect namespaces at reads
          (sort_by store_le (select (is_open_store reads.stores) reads.stores.memory_stores)))
        _ h1 in
    subst
      (λ (x : AuthorizationSnapshot).
        x.snapshot_digest ≡ digest_fields sha256_hex snapshot_domain (snapshot_fields x))
      (ok_injective h2) refl

snapshot_validate-fields :
    (sha256_hex : Bytes → Text) (s : AuthorizationSnapshot)
    → snapshot_validate sha256_hex s ≡ ok tt
    → (s.policy_version ≡ policy_version)
      × (s.snapshot_digest ≡ snapshot_expected_digest sha256_hex s)
unfolding snapshot_validate
snapshot_validate-fields sha256_hex s =
    (then_iff _ _ (reject_ne_iff s.policy_version policy_version _)
      (reject_ne_iff s.snapshot_digest (snapshot_expected_digest sha256_hex s) _)).0

validate-IsCurrent :
    (sha256_hex : Bytes → Text) (id : Text) (s : AuthorizationSnapshot) (at : ℕ) (reads : Reads)
    → validate_authorization_snapshot sha256_hex id s at reads ≡ ok tt
    → IsCurrent sha256_hex id s at reads
unfolding validate_authorization_snapshot snapshot_expected_digest digest_fields
validate-IsCurrent sha256_hex id s at reads h =
    let (u, valid, h1) = >>=-eq-ok (snapshot_validate sha256_hex s) _ h in
    let (v, timed, h2) = >>=-eq-ok (reject_if (s.evaluated_at != at) _) _ h1 in
    let (current, built, h3) =
      >>=-eq-ok
        (build_authorization_snapshot sha256_hex id s.actor_id s.effect s.namespaces at reads) _
        h2 in
    let own = snapshot_validate-fields sha256_hex s valid in
    let same = (reject_ne_iff current.snapshot_digest s.snapshot_digest _).0 h3 in
    let theirs =
      built_digest sha256_hex id s.actor_id s.effect s.namespaces at reads current built in
    record {
      timed = (reject_ne_iff s.evaluated_at at _).0 timed;
      policy = own.0;
      sealed = own.1;
      current = current;
      built = built;
      same_digest = same;
      same_hash = sym theirs ∙ same ∙ own.1;
    }

permit_new-fields :
    (sha256_hex : Bytes → Text) (id : Text) (s : AuthorizationSnapshot)
    (store : AuthorizedMemoryStore) (at to budget : ℕ) (p : MemoryAccessPermit)
    → permit_new sha256_hex id s store at to budget ≡ ok p
    → (p.store_id ≡ store.store_id)
      × (p.namespace ≡ store.namespace)
      × (p.issued_at ≡ at)
      × (p.expires_at ≡ to)
      × (at < p.expires_at)
      × (0 < p.query_budget)
      × (p.query_budget ≤ 100)
      × (p.query_budget ≡ budget)
      × (p.authorization_snapshot_digest ≡ s.snapshot_digest)
      × (p.subject_profile_id ≡ s.subject_profile_id)
      × (p.actor_id ≡ s.actor_id)
      × (p.effect ≡ s.effect)
unfolding permit_new
permit_new-fields sha256_hex id s store at to budget p h = ground arith

-- What a permit is bounded by: it is for the store and the namespace that were asked for, which a
-- store of the snapshot has, and for the subject, the actor and the effect of the snapshot.
pub record IsWithin (s : AuthorizationSnapshot) (store_id namespace : Text) (at budget : ℕ)
    (p : MemoryAccessPermit) : Type 0 where
  pub store : AuthorizedMemoryStore
  pub admitted : Any (λ x. x ≡ store) s.authorized_stores
  pub asked_store : store.store_id ≡ store_id
  pub asked_namespace : store.namespace ≡ namespace
  pub same_store : p.store_id ≡ store_id
  pub same_namespace : p.namespace ≡ namespace
  pub same_snapshot : p.authorization_snapshot_digest ≡ s.snapshot_digest
  pub same_subject : p.subject_profile_id ≡ s.subject_profile_id
  pub same_actor : p.actor_id ≡ s.actor_id
  pub same_effect : p.effect ≡ s.effect
  pub issued : p.issued_at ≡ at
  pub ahead : at < p.expires_at
  pub within_store : p.expires_at ≤ store.authorization_expires_at
  pub within_minute : p.expires_at ≤ at + 60
  pub asked_budget : p.query_budget ≡ budget
  pub some_queries : 0 < p.query_budget
  pub few_queries : p.query_budget ≤ 100

saturating_add-≤ : (a b : ℕ) → saturating_add a b ≤ a + b
unfolding saturating_add
saturating_add-≤ a b = (min_lem (a + b) _).0

find_row-Any :
    {A : Type 0} (test : A → Bool) (xs : List A) (a : A)
    → find_row test xs ≡ some a
    → Any (λ x. x ≡ a) xs
unfolding find_row
find_row-Any test [] a h = cc
find_row-Any test (x ∷ xs) a h = elim (Bool-cases (test x)) [
  | inl e ↦ let h' = rw e at h in inl (ground arith)
  | inr e ↦ let h' = rw e at h in inr (find_row-Any test xs a h')
]

find_row-test :
    {A : Type 0} (test : A → Bool) (xs : List A) (a : A) → find_row test xs ≡ some a → test a ≡ true
unfolding find_row
find_row-test test [] a h = cc
find_row-test test (x ∷ xs) a h = elim (Bool-cases (test x)) [
  | inl e ↦ let h' = rw e at h in ground arith
  | inr e ↦ let h' = rw e at h in find_row-test test xs a h'
]

asked_for :
    (store : AuthorizedMemoryStore) (store_id namespace : Text)
    → (store.store_id == store_id && store.namespace == namespace) ≡ true
    → (store.store_id ≡ store_id) × (store.namespace ≡ namespace)
asked_for store store_id namespace h =
    let a = list_beq_iff store.store_id store_id in
    let b = list_beq_iff store.namespace namespace in ground arith

-- A permit is issued only on a snapshot of that time and of the present policy, whose digest is that of
-- its own fields and that of the snapshot built from the rows that are read, so that the encoded fields
-- of the two have one hash. The permit is for the store and namespace that were asked for, which a store of the snapshot has, and for the snapshot's
-- subject, actor and effect; it ends within a minute and within the store's authorization, has not
-- ended when it is issued, and allows the number of queries asked for, between 1 and 100.
pub issue-IsWithin :
    (sha256_hex : Bytes → Text) (id permit_id : Text) (s : AuthorizationSnapshot)
    (store_id namespace : Text) (at budget : ℕ) (reads : Reads) (p : MemoryAccessPermit)
    → issue_memory_access_permit sha256_hex id permit_id s store_id namespace at budget reads ≡ ok p
    → IsCurrent sha256_hex id s at reads × IsWithin s store_id namespace at budget p
unfolding issue_memory_access_permit admitted_store
issue-IsWithin sha256_hex id permit_id s store_id namespace at budget reads p h =
    let (u, valid, h1) = >>=-eq-ok (validate_authorization_snapshot sha256_hex id s at reads) _ h in
    elim (Option-cases (admitted_store s store_id namespace)) [
      | inl e ↦ let h2 = rw e at h1 in cc
      | inr (store, e) ↦
          let h2 = rw e at h1 in
          let w = permit_new-fields sha256_hex permit_id s store at _ budget p h2 in
          let (here, there) =
            asked_for store store_id namespace (find_row-test _ s.authorized_stores store e) in
          let ends = min_lem store.authorization_expires_at (saturating_add at 60) in
          let late = saturating_add-≤ at 60 in
          (
            validate-IsCurrent sha256_hex id s at reads valid,
            record {
              store = store;
              admitted = find_row-Any _ s.authorized_stores store e;
              asked_store = here;
              asked_namespace = there;
              same_store = w.0 ∙ here;
              same_namespace = w.1 ∙ there;
              same_snapshot = w.8;
              same_subject = w.9;
              same_actor = w.10;
              same_effect = w.11;
              issued = w.2;
              ahead = w.4;
              within_store = subst (λ n. n ≤ store.authorization_expires_at) (sym w.3) ends.0;
              within_minute = omega (arith, w.3, ends.1, late);
              asked_budget = w.7;
              some_queries = w.5;
              few_queries = w.6;
            },
          )
    ]
