-- ===== src/Profiles/Digest/Laws.antt =====
-- src/profile_store.rs: the bytes under a digest determine the fields.
use mnemes.Prelude.{
  ◌^◌, ◌<◌, ◌≡◌, ◌≢◌, refl, sym, ◌∙◌, ap, ◌⊎◌, inl, inr, List, [], ◌∷◌, length, All, arith,
  append_cancel, list_beq, list_beq_iff, Bool-cases,
}
use mathlib.Core.Bool.{false≢true}
use mnemes.Prelude.Bytes.{Bytes, to_be_bytes, length-to_be_bytes, to_be_bytes_injective}
use mnemes.Prelude.Text.{Text, as_bytes, as_bytes_injective, IsText}
use mnemes.Profiles.Digest.{field_bytes, digest_fields}

-- A text that fits the memory of a 64-bit machine.
pub record IsField (t : Text) : Type 0 where
  pub chars : IsText t
  pub fits : length (as_bytes t) < 2 ^ 64

pub field_bytes_injective :
    (fs gs : List Text)
    → length fs ≡ length gs
    → All IsField fs
    → All IsField gs
    → field_bytes fs ≡ field_bytes gs
    → fs ≡ gs
unfolding field_bytes
field_bytes_injective [] [] l hf hg h = refl
field_bytes_injective [] (g ∷ gs) l hf hg h = absurd (omega arith)
field_bytes_injective (f ∷ fs) [] l hf hg h = absurd (omega arith)
field_bytes_injective (f ∷ fs) (g ∷ gs) l hf hg h =
    let hf0 = hf.0.fits in
    let hg0 = hg.0.fits in
    let (lens, rest) =
      append_cancel (to_be_bytes 8 (length (as_bytes f))) (to_be_bytes 8 (length (as_bytes g)))
        (length-to_be_bytes 8 _ ∙ sym (length-to_be_bytes 8 _)) h in
    let same : length (as_bytes f) ≡ length (as_bytes g) =
      to_be_bytes_injective 8 _ _ (omega arith) (omega arith) lens in
    let (bytes, more) = append_cancel (as_bytes f) (as_bytes g) same rest in
    let heads = as_bytes_injective f g hf.0.chars hg.0.chars bytes in
    let tails = field_bytes_injective fs gs (omega arith) hf.1 hg.1 more in
    ap (λ t. t ∷ fs) heads ∙ ap (λ ts. g ∷ ts) tails

-- Two different inputs of one hash.
pub record HexCollision (sha256_hex : Bytes → Text) : Type 0 where
  pub left : Bytes
  pub right : Bytes
  pub differ : left ≢ right
  pub collide : sha256_hex left ≡ sha256_hex right

pub digest_fields_binds :
    (sha256_hex : Bytes → Text) (domain : Text) (fs gs : List Text)
    → length fs ≡ length gs
    → All IsField (domain ∷ fs)
    → All IsField (domain ∷ gs)
    → digest_fields sha256_hex domain fs ≡ digest_fields sha256_hex domain gs
    → (◌≡◌ {A = List Text} (domain ∷ fs) (domain ∷ gs)) ⊎ HexCollision sha256_hex
unfolding digest_fields
digest_fields_binds sha256_hex domain fs gs l hf hg h =
    let x = field_bytes (domain ∷ fs) in
    let y = field_bytes (domain ∷ gs) in
    elim (Bool-cases (list_beq x y)) [
      | inl same ↦ inl (
          field_bytes_injective (domain ∷ fs) (domain ∷ gs) (omega arith) hf hg
            ((list_beq_iff x y).0 same))
      | inr differ ↦ inr (record {
        left = x;
        right = y;
        differ = λ e. false≢true (sym differ ∙ (list_beq_iff x y).1 e);
        collide = h;
      })
    ]
