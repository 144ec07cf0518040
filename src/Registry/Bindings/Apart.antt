-- ===== src/Registry/Bindings/Apart.antt =====
-- src/store.rs: the bindings of one actor that are not revoked run apart from each other.
use mnemes.Prelude.{
  ℕ, ◌<◌, ◌≤◌, ◌≡◌, refl, sym, ap, ◌∙◌, ◌↔◌, ◌⊎◌, inl, inr, true, false, Bool-cases, Option, none,
  some, List, [], ◌∷◌, map, any, All, Any, arith, ltb, leb, list_eq, list_beq_iff, ◌==◌, and_iff,
}
use mnemes.Prelude.Text.{Text}
use mnemes.Profiles.Access.{is_none}
use mnemes.Profiles.Binding.{ActorProfileBinding}
use mnemes.Registry.{select}
use mnemes.Registry.Bindings.{overlaps, in_force, is_open_binding, close_binding}

-- One ends before the other begins, if they are of one actor and neither is revoked.
abbrev pub Apart : ActorProfileBinding → ActorProfileBinding → Type 0
Apart b c =
    b.actor_id ≡ c.actor_id
    → b.revoked_at ≡ none
    → c.revoked_at ≡ none
    → (b.expires_at ≤ c.valid_from) ⊎ (c.expires_at ≤ b.valid_from)

unfoldable pub NoOverlap : List ActorProfileBinding → Type 0
NoOverlap [] = Unit
NoOverlap (b ∷ bs) = All (Apart b) bs × NoOverlap bs

none_iff : (o : Option ℕ) → (is_none o ≡ true) ↔ (o ≡ none)
none_iff o = ground arith

ltb_iff : (a b : ℕ) → (ltb a b ≡ true) ↔ (a < b)
ltb_iff a b = ground arith

leb_iff : (a b : ℕ) → (leb a b ≡ true) ↔ (a ≤ b)
leb_iff a b = ground arith

pub record InForce (actor_id : Text) (at : ℕ) (b : ActorProfileBinding) : Type 0 where
  pub actor : b.actor_id ≡ actor_id
  pub live : b.revoked_at ≡ none
  pub begun : b.valid_from ≤ at
  pub running : at < b.expires_at

pub in_force_iff :
    (actor_id : Text) (at : ℕ) (b : ActorProfileBinding)
    → (in_force actor_id at b ≡ true) ↔ InForce actor_id at b
unfolding in_force
in_force_iff actor_id at b =
    let tests =
      and_iff _ _
        (and_iff _ _ (and_iff _ _ (list_beq_iff b.actor_id actor_id) (none_iff b.revoked_at))
          (leb_iff b.valid_from at))
        (ltb_iff at b.expires_at) in
    (
      λ h.
          let (((actor, live), begun), running) = tests.0 h in
          record { actor = actor; live = live; begun = begun; running = running },
      λ w. tests.1 (((w.actor, w.live), w.begun), w.running),
    )

-- What the query of `bind_actor_profile` finds nothing of.
overlaps_lem :
    (new b : ActorProfileBinding)
    → overlaps new b ≡ false
    → b.actor_id ≡ new.actor_id
    → b.revoked_at ≡ none
    → (new.expires_at ≤ b.valid_from) ⊎ (b.expires_at ≤ new.valid_from)
unfolding overlaps
overlaps_lem new b h same live =
    let actor : (b.actor_id == new.actor_id) ≡ true =
      (list_beq_iff b.actor_id new.actor_id).1 same in
    let unrevoked : is_none b.revoked_at ≡ true = (none_iff b.revoked_at).1 live in ground arith

pub clear_of_all :
    (now : Text) (new : ActorProfileBinding) (bs : List ActorProfileBinding)
    → any (overlaps new) bs ≡ false
    → All (Apart (record new { revoked_at = none; recorded_at = now })) bs
clear_of_all now new [] h = tt
clear_of_all now new (b ∷ bs) h =
    let here : overlaps new b ≡ false = ground arith in
    let rest : any (overlaps new) bs ≡ false = ground arith in
    (λ same live live'. overlaps_lem new b here (sym same) live', clear_of_all now new bs rest)

close_binding-cases :
    (id : Text) (t : ℕ) (b : ActorProfileBinding)
    → (close_binding id t b ≡ b) ⊎ (close_binding id t b ≡ record b { revoked_at = some t })
unfolding close_binding
close_binding-cases id t b = elim (Bool-cases (is_open_binding id b)) [
  | inl h ↦ inr (rw h refl)
  | inr h ↦ inl (rw h refl)
]

-- Closing a binding leaves it apart from whatever it was apart from.
closed_keep :
    (id : Text) (t : ℕ) (b c : ActorProfileBinding)
    → Apart b c
    → Apart (close_binding id t b) (close_binding id t c)
closed_keep id t b c h =
    go (close_binding id t b) (close_binding id t c) (close_binding-cases id t b)
      (close_binding-cases id t c)
  where
    go :
        (b' c' : ActorProfileBinding)
        → (b' ≡ b) ⊎ (b' ≡ record b { revoked_at = some t })
        → (c' ≡ c) ⊎ (c' ≡ record c { revoked_at = some t })
        → Apart b' c'
    go b' c' (inl p) (inl q) = rw (p, q) h
    go b' c' (inr p) q =
        λ same live live'. cc (live, ap (λ (x : ActorProfileBinding). x.revoked_at) p)
    go b' c' p (inr q) =
        λ same live live'. cc (live', ap (λ (x : ActorProfileBinding). x.revoked_at) q)

closed_keep_all :
    (id : Text) (t : ℕ) (b : ActorProfileBinding) (bs : List ActorProfileBinding)
    → All (Apart b) bs
    → All (Apart (close_binding id t b)) (map (close_binding id t) bs)
closed_keep_all id t b [] h = tt
closed_keep_all id t b (c ∷ bs) h = (closed_keep id t b c h.0, closed_keep_all id t b bs h.1)

pub NoOverlap-closed :
    (id : Text) (t : ℕ) (bs : List ActorProfileBinding)
    → NoOverlap bs
    → NoOverlap (map (close_binding id t) bs)
unfolding NoOverlap
NoOverlap-closed id t [] h = tt
NoOverlap-closed id t (b ∷ bs) h = (closed_keep_all id t b bs h.0, NoOverlap-closed id t bs h.1)

none_after :
    (actor_id : Text) (at : ℕ) (b : ActorProfileBinding) (bs : List ActorProfileBinding)
    → in_force actor_id at b ≡ true
    → All (Apart b) bs
    → select (in_force actor_id at) bs ≡ []
unfolding select
none_after actor_id at b [] h apart = refl
none_after actor_id at b (c ∷ bs) h apart = elim (Bool-cases (in_force actor_id at c)) [
  | inr out ↦ rw out (none_after actor_id at b bs h apart.1)
  | inl found ↦
      let x = (in_force_iff actor_id at b).0 h in
      let y = (in_force_iff actor_id at c).0 found in
      absurd
        (clash (apart.0 (x.actor ∙ sym y.actor) x.live y.live) x.begun x.running y.begun y.running)
]
  where
    clash :
        (b.expires_at ≤ c.valid_from) ⊎ (c.expires_at ≤ b.valid_from)
        → b.valid_from ≤ at
        → at < b.expires_at
        → c.valid_from ≤ at
        → at < c.expires_at
        → ⊥
    clash (inl p) h1 h2 h3 h4 = omega arith
    clash (inr p) h1 h2 h3 h4 = omega arith

-- At most one binding of an actor is in force at one time.
pub select-in_force :
    (actor_id : Text) (at : ℕ) (bs : List ActorProfileBinding)
    → NoOverlap bs
    → (select (in_force actor_id at) bs ≡ [])
      ⊎ ((b : ActorProfileBinding) × (select (in_force actor_id at) bs ≡ b ∷ [])
          × (in_force actor_id at b ≡ true)
          × Any (λ c. c ≡ b) bs)
unfolding NoOverlap select
select-in_force actor_id at [] h = inl refl
select-in_force actor_id at (b ∷ bs) h = elim (Bool-cases (in_force actor_id at b)) [
  | inl found ↦ inr (b, rw (found, none_after actor_id at b bs found h.0) refl, found, inl refl)
  | inr out ↦ elim (select-in_force actor_id at bs h.1) [
    | inl e ↦ inl (rw out e)
    | inr (c, e, f, m) ↦ inr (c, rw out e, f, inr m)
  ]
]

-- A binding that is in force is the one that is selected.
pub select-member :
    (actor_id : Text) (at : ℕ) (b : ActorProfileBinding) (bs : List ActorProfileBinding)
    → NoOverlap bs
    → Any (λ c. c ≡ b) bs
    → in_force actor_id at b ≡ true
    → select (in_force actor_id at) bs ≡ b ∷ []
unfolding NoOverlap select
select-member actor_id at b [] h m found = elim m [ ]
select-member actor_id at b (c ∷ bs) h (inl e) found =
    let found' : in_force actor_id at c ≡ true = rw e found in
    rw (found', none_after actor_id at c bs found' h.0) (ap (λ x. x ∷ []) e)
select-member actor_id at b (c ∷ bs) h (inr m) found = elim (Bool-cases (in_force actor_id at c)) [
  | inr out ↦ rw out (select-member actor_id at b bs h.1 m found)
  | inl found' ↦
      let gone = none_after actor_id at c bs found' h.0 in
      let kept = select-member actor_id at b bs h.1 m found in cc
]
