-- ===== src/Identity/Tests.antt =====
-- The texts of the types at concrete values.
use mnemes.Prelude.{◌≡◌, ◌≢◌, refl, ◌↔◌, All, ok}
use mnemes.Prelude.Text.{text, trim, is_whitespace}
use mnemes.Identity.{MemoryItemRef, item_ref_new, parse_key, canonical_key, colon}
use mnemes.Identity.Laws.{parse_key-canonical_key}

abbrev item : MemoryItemRef
item = record { kind = text "fact"; id = text "a:b" }

made : item_ref_new (text "fact") (text "a:b") ≡ ok item
unfolding item_ref_new trim is_whitespace
made = refl

parse_key-canonical_key_example :
    (parse_key (canonical_key item) ≡ ok item) ↔ All (λ c. c ≢ colon) (text "fact")
parse_key-canonical_key_example = parse_key-canonical_key (text "fact") (text "a:b") item made
