-- ===== src/Profiles/Digest.antt =====
-- src/profile_store.rs: the digest of a list of fields. `sha256_hex` is the hash with its digits.
pub mod Laws
use mnemes.Prelude.{List, [], ◌∷◌, ◌++◌, length}
use mnemes.Prelude.Bytes.{Bytes, to_be_bytes}
use mnemes.Prelude.Text.{Text, as_bytes}

-- What the hasher is updated by: the length of each text in bytes, and its bytes.
unfoldable pub field_bytes : List Text → Bytes
field_bytes [] = []
field_bytes (f ∷ fields) = to_be_bytes 8 (length (as_bytes f)) ++ (as_bytes f ++ field_bytes fields)

unfoldable pub digest_fields : (Bytes → Text) → Text → List Text → Text
digest_fields sha256_hex domain fields = sha256_hex (field_bytes (domain ∷ fields))
