-- ===== src/Profiles/Binding.antt =====
-- src/profile_store.rs: the binding of an actor to the profile that it acts for.
pub mod Laws
use mnemes.Prelude.{
  ℕ, Bool, ◌&&◌, ◌||◌, Option, none, some, List, [], ◌∷◌, length, leb, ltb, ◌==◌, ◌!=◌, nat_eq,
  list_eq, Result, ok, err, ◌>>=◌, ◌>>◌, reject_if,
}
use mnemes.Prelude.Bytes.{Bytes}
use mnemes.Prelude.Text.{Text, text, as_bytes}
use mnemes.Prelude.Decimal.{decimal}
use mnemes.Error.{MnemesError, actor_profile_binding_denied, words}
use mnemes.Profiles.Scope.{Verdict, MemoryProfileId}
use mnemes.Profiles.Access.{is_none, precedes}
use mnemes.Profiles.Digest.{digest_fields}

pub record ActorProfileBinding : Type 0 where
  pub binding_id : Text
  pub actor_id : Text
  pub profile_id : MemoryProfileId
  pub owner_device_id : Text
  pub issued_by_actor_id : Text
  pub valid_from : ℕ  -- u64
  pub expires_at : ℕ  -- u64
  pub revoked_at : Option ℕ  -- u64
  pub binding_epoch : ℕ  -- u64
  pub binding_digest : Text
  pub recorded_at : Text

abbrev pub binding_domain : Text
binding_domain = text "mnemes.actor-profile-binding.v1"

abbrev pub issuance_fields : ActorProfileBinding → List Text
issuance_fields b =
    b.binding_id
    ∷ b.actor_id
    ∷ b.profile_id.as_str
    ∷ b.owner_device_id
    ∷ b.issued_by_actor_id
    ∷ decimal b.valid_from
    ∷ decimal b.expires_at
    ∷ decimal b.binding_epoch
    ∷ []

abbrev pub is_active_at : ActorProfileBinding → ℕ → Bool
is_active_at b at = is_none b.revoked_at && leb b.valid_from at && ltb at b.expires_at

module _ (sha256_hex : Bytes → Text) where
  unfoldable pub binding_digest : ActorProfileBinding → Text
  binding_digest b = digest_fields sha256_hex binding_domain (issuance_fields b)

  unfoldable pub binding_validate : ActorProfileBinding → Verdict
  binding_validate b = do
    reject_if (leb b.expires_at b.valid_from)
        (actor_profile_binding_denied (words "binding expires_at must be after valid_from"))
    reject_if (b.binding_epoch == 0)
        (actor_profile_binding_denied (words "binding_epoch must be positive"))
    reject_if (precedes b.revoked_at b.valid_from)
        (actor_profile_binding_denied (words "binding revoked_at cannot precede valid_from"))
    reject_if (length (as_bytes b.binding_digest) != 64 || b.binding_digest != binding_digest b) (
        actor_profile_binding_denied
          (words "binding digest does not match immutable issuance fields"))

  -- `binding_id` is the random UUID that `new` draws.
  unfoldable pub binding_new :
      (binding_id actor_id : Text) (profile_id : MemoryProfileId)
      (owner_device_id issued_by_actor_id : Text) (valid_from expires_at binding_epoch : ℕ)
      → Result MnemesError ActorProfileBinding
  binding_new binding_id actor_id profile_id owner_device_id issued_by_actor_id valid_from
        expires_at binding_epoch =
      let blank : ActorProfileBinding = record {
        binding_id = binding_id;
        actor_id = actor_id;
        profile_id = profile_id;
        owner_device_id = owner_device_id;
        issued_by_actor_id = issued_by_actor_id;
        valid_from = valid_from;
        expires_at = expires_at;
        revoked_at = none;
        binding_epoch = binding_epoch;
        binding_digest = [];
        recorded_at = [];
      } in
      let binding = record blank { binding_digest = binding_digest blank } in
      binding_validate binding >> ok binding
