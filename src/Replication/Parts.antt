-- ===== src/Replication/Parts.antt =====
-- The fixed-order encodings of the preimages: `encode_bytes` of src/replication/types.rs and
-- fact_create.rs, and the sequence of appends that a `signing_preimage` makes.
pub mod Laws
use mnemes.Prelude.{
  ℕ, String, List, [], ◌∷◌, ◌++◌, ltb, if◌then◌else◌, length, Result, ok, err, ◌>>=◌,
}
use mnemes.Prelude.Bytes.{Bytes, to_be_bytes}
use mnemes.Replication.Error.{ReplicationError, field_too_long}

abbrev pub u32_max : ℕ
u32_max = 4294967295

unfoldable pub encode_bytes : Bytes → Bytes → String → Result ReplicationError Bytes
encode_bytes out bytes field =
    if ltb u32_max (length bytes)
    then err (field_too_long field (length bytes))
    else ok (out ++ to_be_bytes 4 (length bytes) ++ bytes)

-- One statement of a preimage: `out.extend_from_slice(bytes)`, or `encode_bytes(out, bytes, field)?`.
pub data Part : Type 0 where
  raw : Bytes → Part
  sized : Bytes → String → Part

-- The statements in their order.
unfoldable pub encode_parts : Bytes → List Part → Result ReplicationError Bytes
unfolding encode_bytes
encode_parts out [] = ok out
encode_parts out (raw bytes ∷ parts) = encode_parts (out ++ bytes) parts
encode_parts out (sized bytes field ∷ parts) =
    encode_bytes out bytes field >>= λ out'. encode_parts out' parts
