-- ===== src/Replication/Crypto.antt =====
-- What the protocol takes from the crates sha2 and ed25519_dalek. It is a parameter of the model:
-- nothing is assumed of it but its types.
use mnemes.Prelude.{Result}
use mnemes.Prelude.Bytes.{Bytes}
use mnemes.Prelude.Text.{Text}

pub record Crypto : Type 1 where
  pub VerifyingKey : Type 0
  -- `Sha256::digest`
  pub sha256 : Bytes → Bytes
  -- `VerifyingKey::from_bytes`, with the words of its error
  pub from_bytes : Bytes → Result Text VerifyingKey
  -- `key.verify(message, signature)`, with the words of its error
  pub verify : VerifyingKey → Bytes → Bytes → Result Text (Unit {0})
  pub SigningKey : Type 0
  -- `signing_key.verifying_key().to_bytes()`
  pub public_bytes : SigningKey → Bytes
  -- `signing_key.sign(message).to_bytes()`
  pub sign : SigningKey → Bytes → Bytes
