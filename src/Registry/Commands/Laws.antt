-- ===== src/Registry/Commands/Laws.antt =====
-- src/store.rs: whatever commands ran, the bindings of an actor do not overlap.
use mnemes.Prelude.{
  ℕ, ◌≡◌, refl, ap, ◌⊎◌, inl, inr, List, [], ◌∷◌, Result, ok, err, ok_injective, arith,
}
use mathlib.Core.Path.{subst}
use mnemes.Prelude.Bytes.{Bytes}
use mnemes.Prelude.Text.{Text}
use mnemes.Error.{MnemesError}
use mnemes.Profiles.Binding.{ActorProfileBinding}
use mnemes.Registry.{Tables, Outcome}
use mnemes.Registry.Devices.{
  bootstrap, bootstrap_with_tx, register_device, rotate_device_credential, set_device_status,
  heartbeat_device, register_actor,
}
use mnemes.Registry.Lifecycle.{
  register_memory_profile, register_memory_store, set_memory_profile_status,
  set_memory_store_status,
}
use mnemes.Registry.Grants.{grant_memory_access, revoke_memory_access}
use mnemes.Registry.Bindings.{bind_actor_profile, revoke_actor_profile_binding}
use mnemes.Registry.Bindings.Apart.{NoOverlap}
use mnemes.Registry.Bindings.Laws.{bind-NoOverlap, revoke-NoOverlap}
use mnemes.Registry.Commands.{
  Command, boot, add_device, rotate, set_device, heartbeat, add_actor, add_profile, add_store,
  set_profile, set_store, grant, revoke_grant, bind, revoke_binding, tables, exec, after, run,
}

-- A command that is not about bindings leaves them.
exec-bindings :
    (sha256_hex : Bytes → Text) (now : Text) (c : Command) (db db' : Tables)
    → exec sha256_hex now c db ≡ ok db'
    → (db.actor_profile_bindings ≡ db'.actor_profile_bindings)
      ⊎ (((b : ActorProfileBinding) × (c ≡ bind b))
          ⊎ ((id : Text) × (at : ℕ) × (c ≡ revoke_binding id at)))
unfolding exec bootstrap bootstrap_with_tx register_device rotate_device_credential
    set_device_status heartbeat_device register_actor register_memory_profile register_memory_store
    set_memory_profile_status set_memory_store_status grant_memory_access revoke_memory_access
exec-bindings sha256_hex now (boot digest actor_id device kind) db db' h = inl (ground arith)
exec-bindings sha256_hex now (add_device device) db db' h = inl (ground arith)
exec-bindings sha256_hex now (rotate digest id) db db' h = inl (ground arith)
exec-bindings sha256_hex now (set_device id status) db db' h = inl (ground arith)
exec-bindings sha256_hex now (heartbeat id) db db' h = inl (ground arith)
exec-bindings sha256_hex now (add_actor actor) db db' h = inl (ground arith)
exec-bindings sha256_hex now (add_profile profile) db db' h = inl (ground arith)
exec-bindings sha256_hex now (add_store store) db db' h = inl (ground arith)
exec-bindings sha256_hex now (set_profile id status) db db' h = inl (ground arith)
exec-bindings sha256_hex now (set_store id status) db db' h = inl (ground arith)
exec-bindings sha256_hex now (grant g) db db' h = inl (ground arith)
exec-bindings sha256_hex now (revoke_grant id at) db db' h = inl (ground arith)
exec-bindings sha256_hex now (bind b) db db' h = inr (inl (b, refl))
exec-bindings sha256_hex now (revoke_binding id at) db db' h = inr (inr (id, at, refl))

tables-eq-ok {ℓ} :
    {A : Type ℓ} (o : Outcome A) (db : Tables) → tables o ≡ ok db → (a : A) × (o ≡ ok (a, db))
tables-eq-ok (ok (a, db')) db h = (a, ap (λ x. ok (a, x)) (ok_injective h))
tables-eq-ok (err e) db h = cc

exec-NoOverlap :
    (sha256_hex : Bytes → Text) (now : Text) (c : Command) (db db' : Tables)
    → NoOverlap db.actor_profile_bindings
    → exec sha256_hex now c db ≡ ok db'
    → NoOverlap db'.actor_profile_bindings
unfolding exec
exec-NoOverlap sha256_hex now c db db' apart h = elim (exec-bindings sha256_hex now c db db' h) [
  | inl same ↦ subst NoOverlap same apart
  | inr (inl (b, e)) ↦
      let (id, h') = tables-eq-ok (bind_actor_profile sha256_hex now b db) db' (rw e at h) in
      bind-NoOverlap sha256_hex now b db db' id apart h'
  | inr (inr (id, at, e)) ↦
      let (u, h') = tables-eq-ok (revoke_actor_profile_binding id at db) db' (rw e at h) in
      revoke-NoOverlap id at db db' apart h'
]

after-NoOverlap :
    (sha256_hex : Bytes → Text) (now : Text) (c : Command) (db : Tables)
    (r : Result MnemesError Tables)
    → exec sha256_hex now c db ≡ r
    → NoOverlap db.actor_profile_bindings
    → NoOverlap (after sha256_hex db r).actor_profile_bindings
after-NoOverlap sha256_hex now c db (ok db') h apart =
    exec-NoOverlap sha256_hex now c db db' apart h
after-NoOverlap sha256_hex now c db (err e) h apart = apart

-- Whatever commands run, at whatever times, on tables whose bindings do not overlap, no two bindings
-- of one actor that are not revoked overlap in time afterwards.
pub run-NoOverlap :
    (sha256_hex : Bytes → Text) (commands : List (Text × Command)) (db : Tables)
    → NoOverlap db.actor_profile_bindings
    → NoOverlap (run sha256_hex commands db).actor_profile_bindings
unfolding run
run-NoOverlap sha256_hex [] db apart = apart
run-NoOverlap sha256_hex ((now, c) ∷ commands) db apart =
    run-NoOverlap sha256_hex commands (after sha256_hex db (exec sha256_hex now c db))
      (after-NoOverlap sha256_hex now c db (exec sha256_hex now c db) refl apart)
