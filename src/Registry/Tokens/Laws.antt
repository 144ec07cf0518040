-- ===== src/Registry/Tokens/Laws.antt =====
-- src/store.rs: who is authenticated by a token.
use mnemes.Prelude.{
  ◌≡◌, refl, ap, ◌∙◌, ◌↔◌, false, not, Option, none, some, ◌∷◌, ◌++◌, arith, list_eq, list_beq_iff,
  ◌!=◌, reject_ne_iff, reject_if, reject_if_iff, reject_unless_iff, Result, ok, >>=-eq-ok,
  ok_injective, ok_or,
}
use mathlib.Core.Path.{subst}
use mnemes.Prelude.Bytes.{Bytes}
use mnemes.Prelude.Text.{Text}
use mnemes.Error.{MnemesError}
use mnemes.Identity.{Device, DeviceStatus, Actor, colon}
use mnemes.Registry.{Tables, device_row, actor_row, is_active_device}
use mnemes.Registry.Tokens.{
  fingerprint, verify, parse_authorization_token, token_device_id, actor_of_device,
  authenticate_request,
}

-- The token names a device whose row in `db` is active and keeps the token's digest, and `d` is the row
-- of that device in `later`. Where the two are one state, `d` is the row that was checked.
pub record IsTokenOf (sha256_hex : Bytes → Text) (parse_device_id : Text → Result MnemesError Text)
    (db later : Tables) (token : Text) (d : Device) : Type 0 where
  pub device_id : Text
  pub secret : Text
  pub parsed : parse_authorization_token sha256_hex parse_device_id token ≡ ok (device_id, secret)
  pub row : Device
  pub stored : device_row db device_id ≡ some row
  pub active : row.status ≡ DeviceStatus.active
  pub read_again : device_row later device_id ≡ some d
  pub bound :
      row.credential_fingerprint ≡ some (fingerprint sha256_hex (device_id ++ (colon ∷ secret)))

module _ (sha256_hex : Bytes → Text) (parse_device_id : Text → Result MnemesError Text) where
  ok_or-eq-ok {ℓ} :
      {A : Type ℓ} (o : Option A) (e : MnemesError) (a : A) → ok_or o e ≡ ok a → o ≡ some a
  ok_or-eq-ok none e a h = cc
  ok_or-eq-ok (some b) e a h = cc (ok_injective h)

  active_iff : (s : DeviceStatus) → (not (is_active_device s) ≡ false) ↔ (s ≡ DeviceStatus.active)
  active_iff s = ground arith

  verify-some :
      (o : Option Text) (token : Text)
      → not (verify sha256_hex o token) ≡ false
      → o ≡ some (fingerprint sha256_hex token)
  unfolding verify
  verify-some none token h = cc
  verify-some (some t) token h =
      let exact = list_beq_iff t (fingerprint sha256_hex token) in ap some (exact.0 (ground arith))

  token_device_id-IsTokenOf :
      (token : Text) (db later : Tables) (d : Device) (stored : Option Text)
      → token_device_id sha256_hex parse_device_id token db later ≡ ok (d, stored)
      → IsTokenOf sha256_hex parse_device_id db later token d
  unfolding token_device_id
  token_device_id-IsTokenOf token db later d stored h =
      let (parts, f1, h1) =
        >>=-eq-ok (parse_authorization_token sha256_hex parse_device_id token) _ h in
      let (x, f2, h2) = >>=-eq-ok (ok_or (device_row db parts.0) _) _ h1 in
      let (u, f3, h3) = >>=-eq-ok (reject_if (not (is_active_device x.status)) _) _ h2 in
      let (v, f4, h4) =
        >>=-eq-ok
          (reject_if
            (not (verify sha256_hex x.credential_fingerprint (parts.0 ++ (colon ∷ parts.1)))) _)
          _ h3 in
      let (y, f5, h5) = >>=-eq-ok (ok_or (device_row later parts.0) _) _ h4 in
      let same : y ≡ d = ap (λ z. z.0) (ok_injective h5) in
      subst (IsTokenOf sha256_hex parse_device_id db later token) same (record {
        device_id = parts.0;
        secret = parts.1;
        parsed = f1;
        row = x;
        stored = ok_or-eq-ok _ _ x f2;
        read_again = ok_or-eq-ok _ _ y f5;
        active = (reject_unless_iff _ _ (active_iff x.status)).0 f3;
        bound =
            verify-some x.credential_fingerprint (parts.0 ++ (colon ∷ parts.1))
              ((reject_if_iff _ _).0 f4);
      })

  actor_of_device-belongs :
      (d : Device) (id : Option Text) (db : Tables) (a : Option Actor)
      → actor_of_device sha256_hex parse_device_id d id db ≡ ok a
      → (actor : Actor) → a ≡ some actor
      → (key : Text) × (id ≡ some key)
        × (actor_row db key ≡ some actor)
        × (actor.device_id ≡ d.device_id)
  unfolding actor_of_device
  actor_of_device-belongs d none db a h actor e = cc
  actor_of_device-belongs d (some key) db a h actor e =
      let (x, f1, h1) = >>=-eq-ok (ok_or (actor_row db key) _) _ h in
      let (u, f2, h2) = >>=-eq-ok (reject_if (x.device_id != d.device_id) _) _ h1 in
      let same : x ≡ actor = cc (ok_injective h2 ∙ e) in
      (
        key,
        refl,
        ok_or-eq-ok _ _ x f1 ∙ ap some same,
        subst (λ (y : Actor). y.device_id ≡ d.device_id) same
            ((reject_ne_iff x.device_id d.device_id _).0 f2),
      )

  -- Who is authenticated is the device that the token names, as the second read has it; at the first read
  -- its row was stored, active, and kept the digest of the token (if the two reads see one state, they
  -- give one row). The actor, if there is one, is the actor that was asked for, as the last read has it,
  -- and of that device.
  pub authenticate-IsTokenOf :
      (token : Text) (actor_id : Option Text) (db later last : Tables) (d : Device)
      (a : Option Actor)
      → authenticate_request sha256_hex parse_device_id token actor_id db later last ≡ ok (d, a)
      → IsTokenOf sha256_hex parse_device_id db later token d
        × ((actor : Actor)
            → a ≡ some actor
            → (key : Text) × (actor_id ≡ some key)
              × (actor_row last key ≡ some actor)
              × (actor.device_id ≡ d.device_id))
  unfolding authenticate_request
  authenticate-IsTokenOf token actor_id db later last d a h =
      let (found, f1, h1) =
        >>=-eq-ok (token_device_id sha256_hex parse_device_id token db later) _ h in
      let (b, f2, h2) =
        >>=-eq-ok (actor_of_device sha256_hex parse_device_id found.0 actor_id last) _ h1 in
      let same : found.0 ≡ d = ap (λ y. y.0) (ok_injective h2) in
      let same' : b ≡ a = ap (λ y. y.1) (ok_injective h2) in
      (
        subst (IsTokenOf sha256_hex parse_device_id db later token) same
            (token_device_id-IsTokenOf token db later found.0 found.1 f1),
        λ actor e.
            subst
              (λ (x : Device).
                (key : Text) × (actor_id ≡ some key)
                × (actor_row last key ≡ some actor)
                × (actor.device_id ≡ x.device_id))
              same (actor_of_device-belongs found.0 actor_id last b f2 actor (same' ∙ e)),
      )
