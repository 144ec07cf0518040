-- ===== src/Registry/Devices/Mirror.antt =====
-- src/store.rs: each device has the row of its shard, whose state is that of the device's status.
use mnemes.Prelude.{
  ◌≡◌, ◌≢◌, refl, sym, ap, ◌∙◌, inl, inr, false, Bool-cases, ◌||◌, Option, none, some, List, [],
  ◌∷◌, map, any, All, All-imp, All-map, Any, arith, list_eq, list_beq_iff, ◌==◌, append_cancel,
}
use mathlib.Core.Path.{subst}
use mnemes.Prelude.Text.{Text, text}
use mnemes.Identity.{Device}
use mnemes.Registry.{ShardRow, find_row}
use mnemes.Shards.{shard_state_from}
use mnemes.Registry.Devices.{shard_relative_path, insert_device_shard_row}

-- The row of a device's shard.
unfoldable pub shard_row : List ShardRow → Text → Option ShardRow
shard_row rows id = find_row (λ (r : ShardRow). r.device_id == id) rows

-- The shard of the device is there, in the state of its status.
unfoldable pub HasShard : List ShardRow → Device → Type 0
HasShard rows d =
    (r : ShardRow) × (shard_row rows d.device_id ≡ some r) × (r.state ≡ shard_state_from d.status)

-- The row has the path of its device, which is there.
unfoldable pub HasDevice : List Device → ShardRow → Type 0
HasDevice devices r =
    (r.relative_path ≡ shard_relative_path r.device_id)
    × Any (λ d. d.device_id ≡ r.device_id) devices

pub record IsMirrored (devices : List Device) (shards : List ShardRow) : Type 0 where
  pub each_device : All (HasShard shards) devices
  pub each_shard : All (HasDevice devices) shards

path_injective : (a b : Text) → shard_relative_path a ≡ shard_relative_path b → a ≡ b
unfolding shard_relative_path
path_injective a b h = (append_cancel (text "memory/shards/") (text "memory/shards/") refl h).1

-- No device has the id.
abbrev pub IsFresh : Text → List Device → Type 0
IsFresh id devices = find_row (λ (d : Device). d.device_id == id) devices ≡ none

fresh-All :
    (id : Text) (devices : List Device) → IsFresh id devices → All (λ d. d.device_id ≢ id) devices
unfolding find_row
fresh-All id [] h = tt
fresh-All id (d ∷ devices) h = elim (Bool-cases (d.device_id == id)) [
  | inl e ↦ let h' = rw e at h in cc
  | inr e ↦
      let h' = rw e at h in
      (λ same. cc ((list_beq_iff d.device_id id).1 same, e), fresh-All id devices h')
]

fresh-Any :
    (id x : Text) (devices : List Device)
    → All (λ d. d.device_id ≢ id) devices
    → Any (λ d. d.device_id ≡ x) devices
    → x ≢ id
fresh-Any id x [] h a same = elim a [ ]
fresh-Any id x (d ∷ devices) h (inl e) same = h.0 (e ∙ same)
fresh-Any id x (d ∷ devices) h (inr a) same = fresh-Any id x devices h.1 a same

-- The row of a new device clashes with none.
no_clash :
    (id : Text) (devices : List Device) (rows : List ShardRow)
    → All (λ d. d.device_id ≢ id) devices
    → All (HasDevice devices) rows
    → any (λ (r : ShardRow). r.device_id == id || r.relative_path == shard_relative_path id) rows
      ≡ false
unfolding HasDevice
no_clash id devices [] fresh h = refl
no_clash id devices (r ∷ rows) fresh h =
    let other : r.device_id ≢ id = fresh-Any id r.device_id devices fresh h.0.1 in
    let here : (r.device_id == id) ≡ false = differ r.device_id id other in
    let path : (r.relative_path == shard_relative_path id) ≡ false =
      differ r.relative_path (shard_relative_path id)
        (λ same. other (path_injective r.device_id id (sym h.0.0 ∙ same))) in
    rw (here, path) (no_clash id devices rows fresh h.1)
  where
    differ : (a b : Text) → a ≢ b → (a == b) ≡ false
    differ a b other = elim (Bool-cases (a == b)) [
      | inl e ↦ absurd (other ((list_beq_iff a b).0 e))
      | inr e ↦ e
    ]

keeps_shard :
    (rows : List ShardRow) (new : ShardRow) (d : Device)
    → d.device_id ≢ new.device_id
    → HasShard rows d
    → HasShard (new ∷ rows) d
unfolding HasShard shard_row find_row
keeps_shard rows new d other (r, found, same) = elim (Bool-cases (new.device_id == d.device_id)) [
  | inl e ↦ absurd (other (sym ((list_beq_iff new.device_id d.device_id).0 e)))
  | inr e ↦ (r, rw e found, same)
]

-- A new device, with its shard.
pub IsMirrored-insert :
    (d : Device) (now : Text) (devices : List Device) (shards : List ShardRow)
    → IsFresh d.device_id devices
    → IsMirrored devices shards
    → IsMirrored (d ∷ devices) (insert_device_shard_row d.device_id d.status now shards)
unfolding insert_device_shard_row HasShard HasDevice shard_row find_row
IsMirrored-insert d now devices shards fresh w =
    let others = fresh-All d.device_id devices fresh in
    rw (no_clash d.device_id devices shards others w.each_shard) (record {
      each_device = (new_shard, keep devices others w.each_device);
      each_shard = (new_device, All-imp shards widen w.each_shard);
    })
  where
    new : ShardRow
    new = record {
      device_id = d.device_id;
      relative_path = shard_relative_path d.device_id;
      state = shard_state_from d.status;
      created_at = now;
    }

    new_shard : HasShard (new ∷ shards) d
    new_shard = (new, rw ((list_beq_iff d.device_id d.device_id).1 refl) refl, refl)

    keep :
        (ds : List Device)
        → All (λ x. x.device_id ≢ d.device_id) ds
        → All (HasShard shards) ds
        → All (HasShard (new ∷ shards)) ds
    keep [] others h = tt
    keep (x ∷ ds) others h = (keeps_shard shards new x others.0 h.0, keep ds others.1 h.1)

    new_device : HasDevice (d ∷ devices) new
    new_device = (refl, inl refl)

    widen : (r : ShardRow) → HasDevice devices r → HasDevice (d ∷ devices) r
    widen r h = (h.0, inr h.1)

found_id :
    (rows : List ShardRow) (id : Text) (r : ShardRow)
    → shard_row rows id ≡ some r
    → r.device_id ≡ id
unfolding shard_row find_row
found_id [] id r h = cc
found_id (x ∷ rows) id r h = elim (Bool-cases (x.device_id == id)) [
  | inl e ↦
      let h' = rw e at h in
      let same : x ≡ r = ground arith in
      subst (λ (y : ShardRow). y.device_id ≡ id) same ((list_beq_iff x.device_id id).0 e)
  | inr e ↦ let h' = rw e at h in found_id rows id r h'
]

-- Changes of the devices and of the shards that keep the ids and the paths, and go together.
pub record GoesWith (f : Device → Device) (g : ShardRow → ShardRow) : Type 0 where
  pub device_id : (d : Device) → (f d).device_id ≡ d.device_id
  pub shard_id : (r : ShardRow) → (g r).device_id ≡ r.device_id
  pub path : (r : ShardRow) → (g r).relative_path ≡ r.relative_path
  pub state :
      (d : Device) (r : ShardRow)
      → r.device_id ≡ d.device_id
      → r.state ≡ shard_state_from d.status
      → (g r).state ≡ shard_state_from (f d).status

module _ (f : Device → Device) (g : ShardRow → ShardRow) (w : GoesWith f g) where
  shard_row-map :
      (rows : List ShardRow) (id : Text) (r : ShardRow)
      → shard_row rows id ≡ some r
      → shard_row (map g rows) id ≡ some (g r)
  unfolding shard_row find_row
  shard_row-map [] id r h = cc
  shard_row-map (x ∷ rows) id r h = elim (Bool-cases (x.device_id == id)) [
    | inl e ↦
        let h' = rw e at h in
        let same : x ≡ r = ground arith in simp (w.shard_id x, e) (ap (λ y. some (g y)) same)
    | inr e ↦ let h' = rw e at h in simp (w.shard_id x, e) (shard_row-map rows id r h')
  ]

  Any-map :
      (x : Text) (devices : List Device)
      → Any (λ d. d.device_id ≡ x) devices
      → Any (λ d. d.device_id ≡ x) (map f devices)
  Any-map x [] h = h
  Any-map x (d ∷ devices) (inl e) = inl (w.device_id d ∙ e)
  Any-map x (d ∷ devices) (inr h) = inr (Any-map x devices h)

  pub IsMirrored-map :
      (devices : List Device) (shards : List ShardRow)
      → IsMirrored devices shards
      → IsMirrored (map f devices) (map g shards)
  unfolding HasShard HasDevice
  IsMirrored-map devices shards m = record {
    each_device = All-map _ f devices (All-imp devices shard m.each_device);
    each_shard = All-map _ g shards (All-imp shards device m.each_shard);
  }
    where
      shard : (d : Device) → HasShard shards d → HasShard (map g shards) (f d)
      shard d (r, found, same) = (
        g r,
        subst (λ id. shard_row (map g shards) id ≡ some (g r)) (sym (w.device_id d))
            (shard_row-map shards d.device_id r found),
        w.state d r (found_id shards d.device_id r found) same,
      )

      device : (r : ShardRow) → HasDevice devices r → HasDevice (map f devices) (g r)
      device r (path, there) = (
        w.path r ∙ path ∙ ap shard_relative_path (sym (w.shard_id r)),
        subst (λ id. Any (λ d. d.device_id ≡ id) (map f devices)) (sym (w.shard_id r))
            (Any-map r.device_id devices there),
      )

-- Changes of the devices alone, which keep ids and statuses.
pub IsMirrored-devices :
    (f : Device → Device) (devices : List Device) (shards : List ShardRow)
    → ((d : Device) → (f d).device_id ≡ d.device_id)
    → ((d : Device) → (f d).status ≡ d.status)
    → IsMirrored devices shards
    → IsMirrored (map f devices) shards
IsMirrored-devices f devices shards ids statuses m =
    subst (IsMirrored (map f devices)) (map-id shards) (
      IsMirrored-map f (λ r. r)
        (record {
          device_id = ids;
          shard_id = λ r. refl;
          path = λ r. refl;
          state = λ d r same state. state ∙ ap shard_state_from (sym (statuses d));
        })
        devices shards m)
  where
    map-id : (rows : List ShardRow) → map (λ r. r) rows ≡ rows
    map-id [] = refl
    map-id (r ∷ rows) = ap (λ x. r ∷ x) (map-id rows)
