-- ===== src/Profiles/Scope/Laws/Identity.antt =====
-- src/profile_store.rs: the identity of a store, made and validated.
use mnemes.Prelude.{
  ◌≡◌, sym, ap, ◌>>=◌, ◌>>◌, ◌!=◌, ◌↔◌, false, ◌||◌, [], list_eq, ok, err, Result, then_iff,
  reject_if, reject_ne_iff, reject_unless_iff, or_iff,
}
use mnemes.Prelude.Text.{Text}
use mnemes.Error.{MnemesError}
use mnemes.Profiles.Scope.{
  MemoryProfileId, canonical_memory_store_relative_path, MemoryStoreIdentity, store_identity_new,
  store_identity_validate, MemoryStoreStatus, check_relative, is_absolute, has_parent_dir,
}
use mnemes.Profiles.Scope.Laws.{IsScopeText, validate_text_iff}

-- A store at the canonical path of its profile, which does not leave the root.
pub record IsStoreIdentity (s : MemoryStoreIdentity) : Type 0 where
  pub store_id : IsScopeText 128 s.store_id
  pub namespace : IsScopeText 128 s.namespace
  pub path : IsScopeText 512 s.relative_path
  pub relative : is_absolute s.relative_path ≡ false
  pub inside : has_parent_dir s.relative_path ≡ false
  pub canonical : canonical_memory_store_relative_path s.profile_id s.store_id ≡ ok s.relative_path

relative_iff :
    (path : Text)
    → (check_relative path ≡ ok tt) ↔ ((is_absolute path ≡ false) × (has_parent_dir path ≡ false))
unfolding check_relative
relative_iff path =
    reject_unless_iff (is_absolute path || has_parent_dir path) _
      (or_iff (is_absolute path) (has_parent_dir path) (λ h. h, λ h. h) (λ h. h, λ h. h))

expected_iff :
    (path : Text) (expected : Result MnemesError Text) (x : Text → MnemesError)
    → ((expected >>= λ e. reject_if (path != e) (x e)) ≡ ok tt) ↔ (expected ≡ ok path)
expected_iff path (err y) x = (λ h. cc, λ h. cc)
expected_iff path (ok e) x =
    let same = reject_ne_iff path e (x e) in (λ h. ap ok (sym (same.0 h)), λ h. same.1 cc)

-- The validation of an identity accepts exactly the stores with bounded texts without control
-- characters, whose path is the canonical one of their profile and has no component `..`.
pub store_identity_validate_iff :
    (s : MemoryStoreIdentity) → (store_identity_validate s ≡ ok tt) ↔ IsStoreIdentity s
unfolding store_identity_validate
store_identity_validate_iff s =
    let steps = then_iff _ _ (validate_text_iff s.store_id "store_id" 128) (
      then_iff _ _ (validate_text_iff s.namespace "namespace" 128) (
        then_iff _ _ (validate_text_iff s.relative_path "relative_path" 512) (
          then_iff _ _ (relative_iff s.relative_path) (
            expected_iff s.relative_path
              (canonical_memory_store_relative_path s.profile_id s.store_id) _)))) in
    (
      λ h.
          let (store, (namespace, (path, (inside, canonical)))) = steps.0 h in
          record {
            store_id = store;
            namespace = namespace;
            path = path;
            relative = inside.0;
            inside = inside.1;
            canonical = canonical;
          },
      λ w. steps.1 (w.store_id, (w.namespace, (w.path, ((w.relative, w.inside), w.canonical)))),
    )

abbrev pub fresh_identity : Text → MemoryProfileId → Text → Text → Text → MemoryStoreIdentity
fresh_identity store_id profile_id owner namespace path = record {
  store_id = store_id;
  profile_id = profile_id;
  owner_device_id = owner;
  namespace = namespace;
  relative_path = path;
  status = MemoryStoreStatus.active;
  created_at = [];
}

built_iff :
    (path : Text) (expected : Result MnemesError Text) (x : Text → MnemesError)
    (f s : MemoryStoreIdentity)
    → ((expected >>= λ e. (reject_if (path != e) (x e) >> ok f)) ≡ ok s)
      ↔ ((expected ≡ ok path) × (f ≡ s))
built_iff path (err y) x f s = (λ h. cc, λ h. cc (h.0))
built_iff path (ok e) x f s =
    let both =
      then_iff (reject_if (path != e) (x e)) (ok f) (reject_ne_iff path e (x e)) (same f s) in
    (λ h. (ap ok (sym (both.0 h).0), (both.0 h).1), λ h. both.1 (ok_injective h.0, h.1))
  where
    same :
        (f s : MemoryStoreIdentity)
        → (◌≡◌ {A = Result MnemesError MemoryStoreIdentity} (ok f) (ok s)) ↔ (f ≡ s)
    same f s = (λ h. ap (λ r. identity_of f r) h, λ h. ap ok h)
      where
        identity_of :
            MemoryStoreIdentity → Result MnemesError MemoryStoreIdentity → MemoryStoreIdentity
        identity_of d (ok i) = i
        identity_of d (err z) = d

    ok_injective : {a b : Text} → ◌≡◌ {A = Result MnemesError Text} (ok a) (ok b) → b ≡ a
    ok_injective h = cc

-- Construction gives an identity exactly when that is the active store with the given fields, and
-- validation accepts it.
pub store_identity_new_iff :
    (store_id : Text) (profile_id : MemoryProfileId) (owner namespace path : Text)
    (s : MemoryStoreIdentity)
    → (store_identity_new store_id profile_id owner namespace path ≡ ok s) ↔ (
        (store_identity_validate (fresh_identity store_id profile_id owner namespace path) ≡ ok tt)
        × (fresh_identity store_id profile_id owner namespace path ≡ s))
unfolding store_identity_new
store_identity_new_iff store_id profile_id owner namespace path s =
    let fresh = fresh_identity store_id profile_id owner namespace path in
    let valid = store_identity_validate_iff fresh in
    let steps = then_iff _ _ (validate_text_iff store_id "store_id" 128) (
      then_iff _ _ (validate_text_iff namespace "namespace" 128) (
        then_iff _ _ (validate_text_iff path "relative_path" 512) (
          then_iff _ _ (relative_iff path) (
            built_iff path (canonical_memory_store_relative_path profile_id store_id) _ fresh
              s)))) in
    (
      λ h.
          let (a, (b, (c, (d, (e, f))))) = steps.0 h in
          (
            valid.1 (record {
              store_id = a;
              namespace = b;
              path = c;
              relative = d.0;
              inside = d.1;
              canonical = e;
            }),
            f,
          ),
      λ (h, f).
          let w = valid.0 h in
          steps.1 (w.store_id, (w.namespace, (w.path, ((w.relative, w.inside), (w.canonical, f))))),
    )
