-- ===== src/Registry/Tokens.antt =====
-- src/store.rs: a token `device_id:secret` authenticates its device, of which the row keeps the token's
-- digest. The parsing of UUIDs and SHA-256 in hexadecimal are parameters, a secret is an argument.
pub mod Laws
use mnemes.Prelude.{
  ℕ, Bool, true, false, not, Option, none, some, List, [], ◌∷◌, ◌++◌, is_empty, ◌==◌, ◌!=◌, list_eq,
  if◌then◌else◌, Result, ok, err, ◌>>=◌, ◌>>◌, reject_if, ok_or,
}
use mnemes.Prelude.Bytes.{Bytes}
use mnemes.Prelude.Text.{Text, text, as_bytes, trim}
use mnemes.Error.{
  MnemesError, invalid_credential, device_not_found, device_not_active, actor_not_found,
  authorization_denied, words, quoting,
}
use mnemes.Identity.{Device, Actor, colon, split_once}
use mnemes.Registry.{Tables, device_row, actor_row, is_active_device}

pub record DeviceCredential : Type 0 where
  pub token : Text
  pub digest : Text

module _ (sha256_hex : Bytes → Text) where
  abbrev pub fingerprint : Text → Text
  fingerprint token = text "sha256:" ++ sha256_hex (as_bytes token)

  unfoldable pub credential_new : (secret : Text) → Text → DeviceCredential
  credential_new secret device_id =
      let token = device_id ++ (colon ∷ secret) in
      record { token = token; digest = fingerprint token }

  unfoldable pub verify : Option Text → Text → Bool
  verify none token = false
  verify (some stored) token = stored == fingerprint token

  module _ (parse_device_id : Text → Result MnemesError Text) where
    -- The two parts of the token, if there are two.
    unfoldable pub parse_parts : Text × Option Text → Result MnemesError (Text × Text)
    parse_parts (device_id_value, rest) = do
      secret ← ok_or rest invalid_credential
      reject_if (is_empty secret) invalid_credential
      device_id ← parse_device_id device_id_value
      ok (device_id, secret)

    unfoldable pub parse_authorization_token : Text → Result MnemesError (Text × Text)
    parse_authorization_token raw = parse_parts (split_once (trim raw))

    -- The device and its stored fingerprint. The row is checked as `db` has it under one lock; the device
    -- is read again under another, when the tables are `later`.
    unfoldable pub token_device_id :
        Text → (db later : Tables) → Result MnemesError (Device × Option Text)
    token_device_id token db later = do
      parts ← parse_authorization_token token
      row ← ok_or (device_row db parts.0) invalid_credential
      reject_if (not (is_active_device row.status))
          (device_not_active (quoting "status of" parts.0))
      reject_if (not (verify row.credential_fingerprint (parts.0 ++ (colon ∷ parts.1))))
          invalid_credential
      device ← ok_or (device_row later parts.0) (device_not_found (quoting "" parts.0))
      ok (device, row.credential_fingerprint)

    -- The actor of the id, if it is one of the device.
    unfoldable pub actor_of_device :
        Device → Option Text → Tables → Result MnemesError (Option Actor)
    actor_of_device device none db = ok none
    actor_of_device device (some actor_id) db = do
      actor ← ok_or (actor_row db actor_id) (actor_not_found (quoting "" actor_id))
      reject_if (actor.device_id != device.device_id)
          (authorization_denied (words "actor does not belong to device"))
      ok (some actor)

    -- Three reads, each under its own lock: of the device's row, of the device, and of the actor.
    unfoldable pub authenticate_request :
        Text → Option Text → (db later last : Tables) → Result MnemesError (Device × Option Actor)
    authenticate_request token actor_id db later last = do
      found ← token_device_id token db later
      actor ← actor_of_device found.0 actor_id last
      ok (found.0, actor)
