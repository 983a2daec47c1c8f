-- ===== src/Account/Slots.antt =====
-- Writes and reads of storage slots through the resources of c_src/nif.cpp.
mod Tests
use diode_server.Base.{
  ℕ, ◌<◌, ◌≡◌, refl, ap, sym, subst, ◌∙◌, Bool, true, false, Option, none, some, Option-cases,
  Bool-cases, inl, inr, if◌then◌else◌, eq_of_some, ◌==◌, ==→eq, [], ◌∷◌, All, arith,
}
use mathlib.Core.Option
use mathlib.Core.Option.{none-ne-some}
use diode_server.Base.Bytes.{Bytes, bin_eq}
use diode_server.Pairs.{is_null, make_pair}
use diode_server.Trie.{Item, each, get_item}
use diode_server.Trie.Outcome.{NoCollision}
use diode_server.Merkle.{insert_item}
use diode_server.Merkle.Store.{IsTree, get_item-insert_item, insert_item_total}
use diode_server.Nif.{zeros, read_storage_slot}
use diode_server.Resource.{at, with_tree}
use diode_server.Resource.Views.{gone, there, load, tree_at, tree_at-none, tree_at-some}
use diode_server.Resource.Runs.{insert_writeable_run}
use diode_server.Resource.Refines.{Sound, view-update}
use diode_server.Account.{AccountEntry, World, in_world}
use diode_server.Account.Entry.{materialize_storage, write_storage_slot}
use diode_server.Account.Apply.{read_slot}

-- What a slot holds behind a write of another one or of itself
abbrev pub slot_after : Bytes → Bytes → Bytes → Bytes → Bytes
slot_after key value old other =
    if bin_eq key other then (if is_null value then zeros else value) else old

module _ (sha : Bytes → Bytes) (fuel : ℕ) where
  -- What a read of a slot answers; `none` where no resource is
  abbrev pub slot_at : World → ℕ → Bytes → Option Bytes
  slot_at w mt key = Option.map (λ r. r.0) (read_slot sha fuel mt key w)

  slot_at-tree_at :
      (w : World) (mt : ℕ) (key : Bytes)
      → slot_at w mt key ≡ Option.map (λ t. read_storage_slot sha t key) (tree_at w.heap mt)
  unfolding read_slot with_tree tree_at
  slot_at-tree_at w mt key = elim (Option-cases (at w.heap.merkletrees mt)) [
    | inl lost ↦ rw lost refl
    | inr (r, e) ↦ elim (Option-cases (at w.heap.states r.shared_state)) [
      | inl lost ↦ rw (e, lost) refl
      | inr (state, g) ↦ rw (e, g) refl
    ]
  ]

  read_storage_slot-insert_item :
      (t t' : Item) (key value other : Bytes)
      → get_item t' (make_pair sha other []) ≡ (
          if bin_eq key other
          then (if is_null value then none else some (make_pair sha key value))
          else get_item t (make_pair sha other []))
      → read_storage_slot sha t' other ≡ slot_after key value (read_storage_slot sha t other) other
  unfolding read_storage_slot
  read_storage_slot-insert_item t t' key value other finds = elim (Bool-cases (bin_eq key other)) [
    | inl same ↦ elim (Bool-cases (is_null value)) [
      | inl null ↦ rw (finds, same, null, read_storage_slot) refl
      | inr held ↦ rw (finds, same, held, read_storage_slot) refl
    ]
    | inr apart ↦ rw (finds, apart, read_storage_slot) refl
  ]

  -- In a world whose heap is sound, a write of a slot through an entry that has a resource returns, if
  -- the fuel is more than 128 and the hashes of different keys among the stored ones and the new one
  -- differ in their first 128 bits, and the heap stays sound. A read of the slot through the resource
  -- then answers the value that was written, the zeros if it is null. A read of any other slot, or
  -- through any other resource, answers what it did, also through one that shared the tree.
  pub write_storage_slot-slot_at :
      (w : World) (e : AccountEntry) (mt : ℕ) (t : Item) (key value : Bytes) (mt' : ℕ)
      (other : Bytes)
      → 128 < fuel
      → Sound sha w.heap
      → e.storage ≡ some mt
      → tree_at w.heap mt ≡ some t
      → NoCollision (make_pair sha key value ∷ each t)
      → (w' : World) × (write_storage_slot sha fuel e key value w
          ≡ some (record e { compact_storage = none }, w'))
        × Sound sha w'.heap
        × (w'.maps ≡ w.maps)
        × (slot_at w' mt' other ≡ (
            if mt == mt'
            then some (slot_after key value (read_storage_slot sha t other) other)
            else slot_at w mt' other))
  unfolding write_storage_slot materialize_storage
  write_storage_slot-slot_at w e mt t key value mt' other enough s stored seen apart =
      elim (load w.heap mt s.counted) [
        | gone n ↦ absurd (none-ne-some t (sym (tree_at-none w.heap mt n) ∙ seen))
        | there r state x g ↦
            let same : state.tree ≡ t =
              eq_of_some (sym (tree_at-some w.heap mt r state x g) ∙ seen) in
            let held = s.trees mt t seen in
            let (t', i) = insert_item_total sha fuel t key value enough held apart in
            let (h', run, c, here) =
              insert_writeable_run sha fuel w.heap mt r state key value t' s.counted x g
                (ap (λ u. insert_item sha fuel u key value) same ∙ i) in
            let (good, finds) = get_item-insert_item sha fuel t t' key value held i in
            let (s', v) =
              view-update sha w.heap h' mt (some t') s c here
                (λ u q. subst (IsTree sha) (eq_of_some q) good) in
            let w' : World = record w { heap = h' } in
            (
              w',
              rw (stored, run, in_world) refl,
              s',
              refl,
              slot_at-tree_at w' mt' other
                  ∙ ap (Option.map (λ u. read_storage_slot sha u other)) (here mt')
                  ∙ elim (Bool-cases (mt == mt')) [
                    | inl q ↦
                        rw q (
                          ap some
                            (read_storage_slot-insert_item t t' key value other (finds other)))
                    | inr q ↦ rw q (sym (slot_at-tree_at w mt' other))
                  ],
            )
      ]
