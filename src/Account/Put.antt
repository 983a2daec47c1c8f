-- ===== src/Account/Put.antt =====
-- What `account_map_put` of c_src/nif.cpp makes of the accounts of a map, and of the other maps.
mod Tests
use mathlib.Core.Option
use diode_server.Base.{
  ℕ, ◌≡◌, refl, ap, sym, ◌∙◌, Bool, true, false, Option, none, some, Option-cases, Bool-cases, inl,
  inr, if◌then◌else◌, eq_of_some, ◌==◌, List, [], ◌∷◌, get_or, set, ==_refl, ◌⊎◌, length, ◌<◌,
}
use diode_server.Base.Cells.{get_or-set, set-set, some-length}
use diode_server.Base.Bytes.{Bytes, bin_eq, bin_eq_sound, bin_eq_refl}
use diode_server.Merkle.{root_hash}
use diode_server.Terms.{Term, resource, badarg, term_is_atom_named}
use diode_server.Nif.{zeros}
use diode_server.Resource.{
  at, alloc_merkletree_resource, keep_storage_in_map, release_storage_from_map, insert_writeable,
}
use diode_server.Account.{
  AccountEntry, SharedAccountMap, World, M, ◌>>=◌, ◌>>◌, pure, on_heap, load_map, store_map,
  store_entry, find_account, set_account, new_entry,
}
use diode_server.Account.Parse.{read_account}
use diode_server.Account.Entry.{
  release_entry_storage, materialize_storage, root_of, storage_root_hash_for_entry, compute,
  account_hash, hash_of_code, insert_state_trie_hash, prepare_hash, update_state_trie_for_entry,
  ensure_account_entry,
}
use diode_server.Account.Change.{put_storage, put_meta, put_entry, put_with, account_map_put}
use diode_server.Account.Frozen.{>>=-some, Keeps-put_storage}
use diode_server.Account.Leaves.{
  Leaves, Any, Leaves->>=, Leaves-pure, Leaves-on_heap, Leaves-load_map, load_map-some, Fields,
  Fields-refl, Leaves-release_entry_storage, Leaves-materialize_storage,
  Leaves-storage_root_hash_for_entry, Leaves-root_of,
}
use diode_server.Account.Writes.{
  find_account-set_account, Puts, Writes, Puts-maps, Writes-after, Writes-before,
  Writes-store_entry, Writes-Fields, Puts-trans,
}
use diode_server.Account.Update.{Writes-update_state_trie_for_entry}

module _ (sha : Bytes → Bytes) (fuel : ℕ) where
  Writes-put_entry :
      (am : ℕ) (a : Bytes) (new : AccountEntry) (mt : ℕ)
      → Writes am a new (put_entry sha fuel am a new mt)
  unfolding put_entry
  Writes-put_entry am a new mt =
      Writes-after am a Any new (load_map am) _ (Leaves-load_map am) (λ shared q.
        Writes-after am a Any new _ _ (released (find_account shared.accounts a)) (λ done q.
          Writes-after am a Any new _ _ (Leaves-on_heap (keep_storage_in_map mt)) (λ done q.
            Writes-after am a Any new _ _ (Leaves-on_heap (release_storage_from_map mt)) (λ done q.
              Writes-Fields am a (record new { storage = some mt }) new _
                (record { nonce = refl; balance = refl; code = refl })
                (Writes-update_state_trie_for_entry sha fuel am a
                  (record new { storage = some mt }))))))
    where
      released :
          (found : Option AccountEntry)
          → Leaves {A = Unit {0}} Any
              (elim found [ none ↦ pure tt | some e ↦ release_entry_storage e >>= λ e'. pure tt ])
      released none = Leaves-pure Any tt tt
      released (some e) =
          Leaves->>= Any Any (release_entry_storage e) _ (Leaves-release_entry_storage e)
            (λ e' q. Leaves-pure Any tt tt)

  -- The entry of the address is there, or is written.
  ensure_account_entry-cases :
      (am : ℕ) (a : Bytes) (w w' : World) (e : AccountEntry)
      → ensure_account_entry sha fuel am a w ≡ some (e, w')
      → (w'.maps ≡ w.maps) ⊎ ((made : AccountEntry) × Puts am a made w w')
  unfolding ensure_account_entry
  ensure_account_entry-cases am a w w' e run =
      let (shared, w₁, first, last) = >>=-some (load_map am) _ w w' e run in
      let maps = (Leaves-load_map am w w₁ shared first).0 in
      elim (by_case (find_account shared.accounts a) w₁ last) [
        | inl same ↦ inl (same ∙ maps)
        | inr (made, put) ↦ inr (made, Puts-maps am a w w' maps refl (Fields-refl made) put)
      ]
    where
      make : ℕ → M AccountEntry
      make mt = on_heap (keep_storage_in_map mt) >>= λ done.
          on_heap (release_storage_from_map mt) >>= λ done.
          store_entry am a (record (new_entry zeros) { storage = some mt }) >>= λ done.
          pure (record (new_entry zeros) { storage = some mt })

      Writes-make :
          (mt : ℕ) → Writes am a (record (new_entry zeros) { storage = some mt }) (make mt)
      Writes-make mt =
          let made : AccountEntry = record (new_entry zeros) { storage = some mt } in
          Writes-after am a Any made _ _ (Leaves-on_heap (keep_storage_in_map mt)) (λ done q.
            Writes-after am a Any made _ _ (Leaves-on_heap (release_storage_from_map mt)) (λ done q.
              Writes-before am a made (store_entry am a made) (λ done. pure made)
                (Writes-store_entry am a made) (λ done. Leaves-pure Any made tt)))

      by_case :
          (found : Option AccountEntry) (w₁ : World)
          → (elim found as (λ x. M AccountEntry) [
            | some e ↦ pure e
            | none ↦ on_heap alloc_merkletree_resource >>= make
          ])
              w₁
            ≡ some (e, w')
          → (w'.maps ≡ w₁.maps) ⊎ ((made : AccountEntry) × Puts am a made w₁ w')
      by_case (some e') w₁ run = inl (Leaves-pure Any e' tt w₁ w' e run).0
      by_case none w₁ run =
          let (mt, w₂, first, last) =
            >>=-some (on_heap alloc_merkletree_resource) make w₁ w' e run in
          let made : AccountEntry = record (new_entry zeros) { storage = some mt } in
          inr (
            made,
            Puts-maps am a w₁ w' (Leaves-on_heap alloc_merkletree_resource w₁ w₂ mt first).0 refl
                (Fields-refl made) (Writes-make mt w₂ w' e last),
          )

  Writes-put_meta :
      (am : ℕ) (a : Bytes) (new : AccountEntry) → Writes am a new (put_meta sha fuel am a new)
  unfolding put_meta
  Writes-put_meta am a new w w' done run =
      let (e, w₁, first, last) = >>=-some (ensure_account_entry sha fuel am a) _ w w' done run in
      let written = record e { nonce = new.nonce; balance = new.balance; code = new.code } in
      let put : Puts am a new w₁ w' =
        Puts-maps am a w₁ w' refl refl (record { nonce = refl; balance = refl; code = refl })
          (Writes-update_state_trie_for_entry sha fuel am a written w₁ w' done last) in
      elim (ensure_account_entry-cases am a w w₁ e first) [
        | inl same ↦ Puts-maps am a w w' same refl (Fields-refl new) put
        | inr (made, ensured) ↦ Puts-trans am a ensured put
      ]

  put_with-Puts :
      (am : ℕ) (a : Bytes) (new : AccountEntry) (storage : Option ℕ) (w w' : World)
      → put_with sha fuel am a new storage w ≡ some (resource am, w')
      → Puts am a new w w'
  unfolding put_with
  put_with-Puts am a new none w w' run = cc
  put_with-Puts am a new (some mt) w w' run =
      let (shared, w₁, first, last) = >>=-some (load_map am) _ w w' (resource am) run in
      Puts-maps am a w w' (Leaves-load_map am w w₁ shared first).0 refl (Fields-refl new)
        (by_case shared.frozen w₁ last)
    where
      by_case :
          (frozen : Bool) (w₁ : World)
          → (if frozen
                then (on_heap (release_storage_from_map mt) >>= λ done. pure badarg)
                else put_entry sha fuel am a new mt >>= λ done. pure (resource am))
              w₁
            ≡ some (resource am, w')
          → Puts am a new w₁ w'
      by_case true w₁ run =
          let (done, w₂, first, last) =
            >>=-some (on_heap (release_storage_from_map mt)) (λ done. pure badarg) w₁ w'
              (resource am) run in
          cc
      by_case false w₁ run =
          Writes-before am a new (put_entry sha fuel am a new mt) (λ done. pure (resource am))
            (Writes-put_entry am a new mt) (λ done. Leaves-pure Any (resource am) tt) w₁ w'
            (resource am) run

  account_map_put-Puts :
      (term_to_binary : Term → Option Bytes) (am : ℕ) (addr nonce balance storage code : Term)
      (a : Bytes) (new : AccountEntry) (w w' : World)
      → read_account term_to_binary addr nonce balance code ≡ some (a, new)
      → account_map_put sha fuel term_to_binary (resource am) addr nonce balance storage code w
        ≡ some (resource am, w')
      → Puts am a new w w'
  unfolding account_map_put
  account_map_put-Puts term_to_binary am addr nonce balance storage code a new w w' given =
      rw given (by_case (term_is_atom_named storage "keep"))
    where
      meta :
          (frozen : Bool) (w₁ : World)
          → (if frozen
                then pure badarg
                else put_meta sha fuel am a new >>= λ done. pure (resource am))
              w₁
            ≡ some (resource am, w')
          → Puts am a new w₁ w'
      meta true w₁ run = cc
      meta false w₁ run =
          Writes-before am a new (put_meta sha fuel am a new) (λ done. pure (resource am))
            (Writes-put_meta am a new) (λ done. Leaves-pure Any (resource am) tt) w₁ w'
            (resource am) run

      by_case :
          (keep : Bool)
          → (if keep
                then (load_map am >>= λ s.
                    if s.frozen
                    then pure badarg
                    else put_meta sha fuel am a new >>= λ done. pure (resource am))
                else put_storage sha fuel storage >>= put_with sha fuel am a new)
              w
            ≡ some (resource am, w')
          → Puts am a new w w'
      by_case true run =
          let (shared, w₁, first, last) = >>=-some (load_map am) _ w w' (resource am) run in
          Puts-maps am a w w' (Leaves-load_map am w w₁ shared first).0 refl (Fields-refl new)
            (meta shared.frozen w₁ last)
      by_case false run =
          let (mt, w₁, first, last) =
            >>=-some (put_storage sha fuel storage) (put_with sha fuel am a new) w w' (resource am)
              run in
          Puts-maps am a w w' (Keeps-put_storage sha fuel storage w w₁ mt first).0 refl
            (Fields-refl new) (put_with-Puts am a new mt w₁ w' last)

  -- A put that gives back the map has stored the nonce, the balance and the code that it read at the
  -- address. Of the map it changes no other account, nor the state trie that it points to nor whether
  -- it is frozen, and every other map is as it was.
  pub account_map_put-find_account :
      (term_to_binary : Term → Option Bytes) (am : ℕ) (addr nonce balance storage code : Term)
      (a : Bytes) (new : AccountEntry) (w w' : World) (b : Bytes) (other : ℕ)
      → read_account term_to_binary addr nonce balance code ≡ some (a, new)
      → account_map_put sha fuel term_to_binary (resource am) addr nonce balance storage code w
        ≡ some (resource am, w')
      → (before : SharedAccountMap) × (after : SharedAccountMap) × (e : AccountEntry) × (at w.maps
            am
          ≡ some before)
        × (at w'.maps other ≡ (if am == other then some after else at w.maps other))
        × (after.frozen ≡ before.frozen)
        × (after.state_trie ≡ before.state_trie)
        × Fields e new
        × (find_account after.accounts b
            ≡ (if bin_eq a b then some e else find_account before.accounts b))
  account_map_put-find_account term_to_binary am addr nonce balance storage code a new w w' b other
        given run =
      let put =
        account_map_put-Puts term_to_binary am addr nonce balance storage code a new w w' given
          run in
      let after = record put.shared { accounts = set_account put.shared.accounts a put.entry } in
      (
        put.shared,
        after,
        put.entry,
        put.there,
        ap (λ ms. at ms other) put.maps
            ∙ get_or-set w.maps am other (some after) none (some-length w.maps am put.there),
        refl,
        refl,
        put.fields,
        find_account-set_account put.shared.accounts a b put.entry,
      )
