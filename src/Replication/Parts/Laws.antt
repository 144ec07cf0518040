-- ===== src/Replication/Parts/Laws.antt =====
-- A preimage is read back part by part: equal encodings of one shape have equal parts.
use mathlib.Core.List.{append_assoc, append-nil}
use mnemes.Prelude.{
  ◌≤◌, ◌≡◌, refl, sym, ap, ◌∙◌, String, List, [], ◌∷◌, ◌++◌, arith, length, append_cancel, ok,
  >>=-eq-ok,
}
use mnemes.Prelude.Bytes.{Bytes, to_be_bytes, length-to_be_bytes, to_be_bytes_injective}
use mnemes.Replication.Parts.{Part, raw, sized, u32_max, encode_bytes, encode_parts}

-- The bytes of the parts.
pub flat : List Part → Bytes
flat [] = []
flat (raw b ∷ ps) = b ++ flat ps
flat (sized b f ∷ ps) = to_be_bytes 4 (length b) ++ (b ++ flat ps)

-- Every field has a length that the prefix can hold.
abbrev pub HasRoom : List Part → Type 0
HasRoom [] = Unit
HasRoom (raw b ∷ ps) = HasRoom ps
HasRoom (sized b f ∷ ps) = (length b ≤ u32_max) × HasRoom ps

-- Two lists of parts that agree on what has no length prefix: in kind and in length.
abbrev pub SameShape : List Part → List Part → Type 0
SameShape [] [] = Unit
SameShape (raw a ∷ ps) (raw b ∷ qs) = (length a ≡ length b) × SameShape ps qs
SameShape (sized a f ∷ ps) (sized b g ∷ qs) = SameShape ps qs
SameShape _ _ = ⊥

-- Equal part by part.
abbrev pub SameParts : List Part → List Part → Type 0
SameParts [] [] = Unit
SameParts (raw a ∷ ps) (raw b ∷ qs) = (a ≡ b) × SameParts ps qs
SameParts (sized a f ∷ ps) (sized b g ∷ qs) = (a ≡ b) × SameParts ps qs
SameParts _ _ = ⊥

encode_bytes_lem :
    (out b : Bytes) (f : String) {x : Bytes}
    → encode_bytes out b f ≡ ok x
    → (length b ≤ u32_max) × (x ≡ out ++ to_be_bytes 4 (length b) ++ b)
unfolding encode_bytes
encode_bytes_lem out b f h = ground arith

encode_bytes_fits :
    (out b : Bytes) (f : String)
    → length b ≤ u32_max
    → encode_bytes out b f ≡ ok (out ++ to_be_bytes 4 (length b) ++ b)
unfolding encode_bytes
encode_bytes_fits out b f h = ground arith

-- What a preimage is, when it is returned.
pub encode_parts-eq-flat :
    (out : Bytes) (ps : List Part) {x : Bytes}
    → encode_parts out ps ≡ ok x
    → HasRoom ps × (x ≡ out ++ flat ps)
unfolding encode_parts flat
encode_parts-eq-flat out [] h = (tt, rw append-nil cc)
encode_parts-eq-flat out (raw b ∷ ps) h =
    let rest = encode_parts-eq-flat (out ++ b) ps h in
    (rest.0, rest.1 ∙ append_assoc out b (flat ps))
encode_parts-eq-flat out (sized b f ∷ ps) h =
    let (out', first, next) = >>=-eq-ok (encode_bytes out b f) (λ o. encode_parts o ps) h in
    let (fits, now) = encode_bytes_lem out b f first in
    let rest = encode_parts-eq-flat out' ps next in
    ((fits, rest.0), rest.1 ∙ (rw now (simp append_assoc)))

-- A preimage is refused exactly when some field does not fit its length prefix.
pub encode_parts_total :
    (out : Bytes) (ps : List Part) → HasRoom ps → encode_parts out ps ≡ ok (out ++ flat ps)
unfolding encode_parts flat
encode_parts_total out [] h = rw append-nil
encode_parts_total out (raw b ∷ ps) h =
    encode_parts_total (out ++ b) ps h ∙ ap ok (append_assoc out b (flat ps))
encode_parts_total out (sized b f ∷ ps) h =
    rw (encode_bytes_fits out b f h.0)
      (encode_parts_total (out ++ to_be_bytes 4 (length b) ++ b) ps h.1 ∙ simp append_assoc)

pub flat_injective :
    (ps qs : List Part)
    → SameShape ps qs
    → HasRoom ps
    → HasRoom qs
    → flat ps ≡ flat qs
    → SameParts ps qs
unfolding flat
flat_injective [] [] s hp hq h = tt
flat_injective [] (raw b ∷ qs) s hp hq h = elim s [ ]
flat_injective [] (sized b g ∷ qs) s hp hq h = elim s [ ]
flat_injective (raw a ∷ ps) [] s hp hq h = elim s [ ]
flat_injective (sized a f ∷ ps) [] s hp hq h = elim s [ ]
flat_injective (raw a ∷ ps) (sized b g ∷ qs) s hp hq h = elim s [ ]
flat_injective (sized a f ∷ ps) (raw b ∷ qs) s hp hq h = elim s [ ]
flat_injective (raw a ∷ ps) (raw b ∷ qs) (e, s) hp hq h =
    let (same, rest) = append_cancel a b e h in (same, flat_injective ps qs s hp hq rest)
flat_injective (sized a f ∷ ps) (sized b g ∷ qs) s (la, hp) (lb, hq) h =
    let (lens, rest) =
      append_cancel (to_be_bytes 4 (length a)) (to_be_bytes 4 (length b))
        (length-to_be_bytes 4 (length a) ∙ sym (length-to_be_bytes 4 (length b))) h in
    let e : length a ≡ length b =
      to_be_bytes_injective 4 (length a) (length b) (omega arith) (omega arith) lens in
    let (same, rest') = append_cancel a b e rest in (same, flat_injective ps qs s hp hq rest')

-- Two lists of parts of one shape that are encoded alike, after one tag, are equal part by part.
pub encode_parts_injective :
    (tag : Bytes) (ps qs : List Part) {x : Bytes}
    → SameShape ps qs
    → encode_parts tag ps ≡ ok x
    → encode_parts tag qs ≡ ok x
    → SameParts ps qs
encode_parts_injective tag ps qs s hp hq =
    let (rp, ep) = encode_parts-eq-flat tag ps hp in
    let (rq, eq) = encode_parts-eq-flat tag qs hq in
    flat_injective ps qs s rp rq (append_cancel tag tag refl (sym ep ∙ eq)).1
