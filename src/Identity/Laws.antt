-- ===== src/Identity/Laws.antt =====
-- src/types.rs and src/profile_store.rs: what is written as text reads back.
use mathlib.Core.Path.{subst}
use mnemes.Prelude.{
  ok_injective, ◌>>◌, ◌≡◌, ◌≢◌, refl, sym, ap, ◌∙◌, ◌↔◌, Bool, true, false, ◌==◌, ◌||◌, Option,
  some, [], ◌∷◌, ◌++◌, All, list_eq, list_beq, list_beq_iff, nat_beq, nat_beq_iff, if◌then◌else◌,
  is_empty, ok, >>=-eq-ok, reject_if, arith,
}
use mnemes.Prelude.Text.{Text, text, trim}
use mnemes.Error.{MnemesError}
use mnemes.Profiles.Scope.{
  MemoryProfileStatus, MemoryStoreStatus, profile_status_as_str, parse_profile_status,
  store_status_as_str, parse_store_status,
}
use mnemes.Profiles.Access.{MemoryAccessEffect, effect_as_str, parse_effect, search, read, write}
use mnemes.Identity.{
  DeviceStatus, device_status_as_str, parse_device_status, ToolProfile, agent, operator,
  tool_profile_as_str, parse_tool_profile, ProvenanceEdgeType, observed_by, recorded_by,
  derived_from, supports, contradicts, supersedes, retrieved_from, edge_type_as_str,
  parse_edge_type, ActorKind, human, hermes, codex, ollama, service, plugin, process,
  actor_kind_as_str, parse_actor_kind, MemoryItemRef, item_ref_new, parse_key, canonical_key,
  split_once, colon, or_default,
}

device_status_reads :
    (s : DeviceStatus) (row : Text) → parse_device_status (device_status_as_str s) row ≡ ok s
unfolding parse_device_status list_beq
device_status_reads DeviceStatus.active row = refl
device_status_reads DeviceStatus.revoked row = refl
device_status_reads DeviceStatus.quarantined row = refl

tool_profile_reads : (p : ToolProfile) → parse_tool_profile (tool_profile_as_str p) ≡ some p
unfolding parse_tool_profile list_beq
tool_profile_reads agent = refl
tool_profile_reads operator = refl

edge_type_reads :
    (t : ProvenanceEdgeType) (row : Text) → parse_edge_type (edge_type_as_str t) row ≡ ok t
unfolding parse_edge_type list_beq
edge_type_reads observed_by row = refl
edge_type_reads recorded_by row = refl
edge_type_reads derived_from row = refl
edge_type_reads supports row = refl
edge_type_reads contradicts row = refl
edge_type_reads supersedes row = refl
edge_type_reads retrieved_from row = refl

profile_status_reads :
    (s : MemoryProfileStatus) → parse_profile_status (profile_status_as_str s) ≡ ok s
unfolding parse_profile_status list_beq
profile_status_reads MemoryProfileStatus.active = refl
profile_status_reads MemoryProfileStatus.revoked = refl

store_status_reads : (s : MemoryStoreStatus) → parse_store_status (store_status_as_str s) ≡ ok s
unfolding parse_store_status list_beq
store_status_reads MemoryStoreStatus.active = refl
store_status_reads MemoryStoreStatus.quarantined = refl
store_status_reads MemoryStoreStatus.revoked = refl

effect_reads : (e : MemoryAccessEffect) → parse_effect (effect_as_str e) ≡ ok e
unfolding parse_effect list_beq
effect_reads search = refl
effect_reads read = refl
effect_reads write = refl

-- A chain of tests for literals keeps the text.
kept :
    (k : ActorKind) (v literal : Text) (rest : ActorKind)
    → actor_kind_as_str k ≡ literal
    → actor_kind_as_str rest ≡ v
    → actor_kind_as_str (if v == literal then k else rest) ≡ v
kept k v literal rest same other = go (list_beq v literal) (list_beq_iff v literal).0
  where
    go : (b : Bool) → (b ≡ true → v ≡ literal) → actor_kind_as_str (if b then k else rest) ≡ v
    go true e = same ∙ sym (e refl)
    go false e = other

actor_kind_lossless : (v : Text) → actor_kind_as_str (parse_actor_kind v) ≡ v
unfolding parse_actor_kind
actor_kind_lossless v = kept human v (text "human") _ refl (
    kept hermes v (text "hermes") _ refl (
      kept codex v (text "codex") _ refl (
        kept ollama v (text "ollama") _ refl (
          kept service v (text "service") _ refl
            (kept plugin v (text "plugin") _ refl (kept process v (text "process") _ refl refl))))))

-- Every status, profile, effect and edge type that is written as its text reads back as itself, and
-- every text that is read as an actor kind is written back as it was.
pub texts_read_back :
    (d : DeviceStatus) (row : Text) (tools : ToolProfile) (edge : ProvenanceEdgeType)
    (p : MemoryProfileStatus) (s : MemoryStoreStatus) (e : MemoryAccessEffect) (kind : Text)
    → (parse_device_status (device_status_as_str d) row ≡ ok d)
      × (parse_tool_profile (tool_profile_as_str tools) ≡ some tools)
      × (parse_edge_type (edge_type_as_str edge) row ≡ ok edge)
      × (parse_profile_status (profile_status_as_str p) ≡ ok p)
      × (parse_store_status (store_status_as_str s) ≡ ok s)
      × (parse_effect (effect_as_str e) ≡ ok e)
      × (actor_kind_as_str (parse_actor_kind kind) ≡ kind)
texts_read_back d row tools edge p s e kind = (
  device_status_reads d row,
  tool_profile_reads tools,
  edge_type_reads edge row,
  profile_status_reads p,
  store_status_reads s,
  effect_reads e,
  actor_kind_lossless kind,
)

abbrev HasNoColon : Text → Type 0
HasNoColon = All (λ c. c ≢ colon)

split-append : (k i : Text) → HasNoColon k → split_once (k ++ (colon ∷ i)) ≡ (k, some i)
unfolding split_once
split-append [] i h = refl
split-append (c ∷ k) i h = ground (arith, split-append k i h.1, h.0)

abbrev first : Text × Option Text → Text
first (s, t) = s

split-HasNoColon : (s : Text) → HasNoColon (split_once s).0
unfolding split_once
split-HasNoColon [] = tt
split-HasNoColon (c ∷ s) = go (nat_beq c colon) (nat_beq_iff c colon).1 (split-HasNoColon s)
  where
    go :
        (b : Bool)
        → (c ≡ colon → b ≡ true)
        → HasNoColon (split_once s).0
        → HasNoColon (first (if b then ([], some s) else (c ∷ (split_once s).0, (split_once s).1)))
    go true e h = tt
    go false e h = (λ same. cc (e same), h)

new_keeps :
    (k i : Text) {r : MemoryItemRef}
    → item_ref_new k i ≡ ok r
    → (is_empty (trim k) ≡ false) × (is_empty (trim i) ≡ false) × (r.kind ≡ k) × (r.id ≡ i)
unfolding item_ref_new
new_keeps k i {r} h = go (is_empty (trim k)) (is_empty (trim i)) _ _ h
  where
    go :
        (a b : Bool) (x y : MnemesError)
        → (reject_if a x >> (reject_if b y >> ok (record { kind = k; id = i }))) ≡ ok r
        → (a ≡ false) × (b ≡ false) × (r.kind ≡ k) × (r.id ≡ i)
    go true b x y h = cc
    go false true x y h = cc
    go false false x y h =
        let same = ok_injective h in
        (
          refl,
          refl,
          sym (ap (λ (q : MemoryItemRef). q.kind) same),
          sym (ap (λ (q : MemoryItemRef). q.id) same),
        )

present : (t : Text) → is_empty (trim t) ≡ false → is_empty t ≡ false
unfolding trim
present [] h = h
present (c ∷ t) h = refl

-- An item reference that was admitted reads back from its key exactly when its kind has no colon.
pub parse_key-canonical_key :
    (k i : Text) (r : MemoryItemRef)
    → item_ref_new k i ≡ ok r
    → (parse_key (canonical_key r) ≡ ok r) ↔ HasNoColon r.kind
unfolding parse_key
parse_key-canonical_key k i r h =
    let (kind, id, same_kind, same_id) = new_keeps k i h in
    (
      λ read.
          let (u, _, made) =
            >>=-eq-ok
              (reject_if
                (is_empty (split_once (canonical_key r)).0
                  || is_empty (or_default (split_once (canonical_key r)).1))
                _)
              _ read in
          let parts =
            new_keeps (split_once (canonical_key r)).0 (or_default (split_once (canonical_key r)).1)
              made in
          subst HasNoColon (sym parts.2) (split-HasNoColon (canonical_key r)),
      λ clean.
          let full_kind : is_empty r.kind ≡ false =
            subst (λ t. is_empty t ≡ false) (sym same_kind) (present k kind) in
          let full_id : is_empty r.id ≡ false =
            subst (λ t. is_empty t ≡ false) (sym same_id) (present i id) in
          let again : item_ref_new r.kind r.id ≡ ok r =
            ap (λ t. item_ref_new t r.id) same_kind ∙ ap (item_ref_new k) same_id ∙ h in
          rw (split-append r.kind r.id clean, full_kind, full_id) again,
    )
