-- ===== src/Account/Update.antt =====
-- What `update_state_trie_for_entry` of c_src/nif.cpp does to the account maps.
use mathlib.Core.Option
use diode_server.Base.{ℕ, Option, none, some}
use diode_server.Base.Bytes.{Bytes}
use diode_server.Resource.{insert_writeable}
use diode_server.Account.{AccountEntry, ◌>>=◌, pure, load_map, store_entry}
use diode_server.Account.Entry.{
  materialize_storage, root_of, storage_root_hash_for_entry, compute, account_hash, hash_of_code,
  insert_state_trie_hash, prepare_hash, update_state_trie_for_entry,
}
use diode_server.Account.Leaves.{
  Leaves, Any, Leaves->>=, Leaves-pure, Leaves-on_heap, Leaves-load_map, Fields, Fields-refl,
  Leaves-materialize_storage, Leaves-storage_root_hash_for_entry, Leaves-root_of,
}
use diode_server.Account.Writes.{
  Writes, Writes-after, Writes-before, Writes-store_entry, Writes-Fields,
}

module _ (sha : Bytes → Bytes) (fuel : ℕ) where
  Leaves-compute :
      (e : AccountEntry) (root code : Option Bytes) → Leaves Any (compute sha fuel e root code)
  unfolding compute
  Leaves-compute e root code = by_case root e.storage
    where
      code_hash : Bytes
      code_hash = Option.get_or code (hash_of_code sha e.code)

      by_case :
          (root : Option Bytes) (storage : Option ℕ)
          → Leaves {A = Option Bytes} Any (elim root [
            | some root ↦ pure (some (account_hash sha e root code_hash))
            | none ↦ elim storage [
              | none ↦ pure none
              | some mt ↦
                  root_of sha fuel mt >>= λ root. pure (some (account_hash sha e root code_hash))
            ]
          ])
      by_case (some root) storage = Leaves-pure Any (some (account_hash sha e root code_hash)) tt
      by_case none none = Leaves-pure Any none tt
      by_case none (some mt) =
          Leaves->>= Any Any (root_of sha fuel mt) _ (Leaves-root_of sha fuel mt)
            (λ root q. Leaves-pure Any (some (account_hash sha e root code_hash)) tt)

  pub Leaves-insert_state_trie_hash :
      (am : ℕ) (a hash : Bytes) → Leaves Any (insert_state_trie_hash sha fuel am a hash)
  unfolding insert_state_trie_hash
  Leaves-insert_state_trie_hash am a hash =
      Leaves->>= Any Any (load_map am) _ (Leaves-load_map am)
        (λ shared q. Leaves-on_heap (insert_writeable sha fuel shared.state_trie a hash))

  Leaves-prepare_hash : (e : AccountEntry) → Leaves (λ r. Fields r.0 e) (prepare_hash sha fuel e)
  unfolding prepare_hash
  Leaves-prepare_hash e = by_case e.storage e.compact_storage
    where
      same : AccountEntry × Option Bytes → Type 0
      same r = Fields r.0 e

      by_case :
          (storage compact_storage : Option ℕ)
          → Leaves {A = AccountEntry × Option Bytes} same (elim storage [
            | some mt ↦ pure (e, none)
            | none ↦ elim compact_storage [
              | some c ↦ storage_root_hash_for_entry sha fuel e >>= λ root. pure (e, some root)
              | none ↦ materialize_storage sha fuel e >>= λ r. pure (r.0, none)
            ]
          ])
      by_case (some mt) compact_storage = Leaves-pure same (e, none) (Fields-refl e)
      by_case none (some c) =
          Leaves->>= Any same (storage_root_hash_for_entry sha fuel e) _
            (Leaves-storage_root_hash_for_entry sha fuel e)
            (λ root q. Leaves-pure same (e, some root) (Fields-refl e))
      by_case none none =
          Leaves->>= (λ r. Fields r.0 e) same (materialize_storage sha fuel e) _
            (Leaves-materialize_storage sha fuel e) (λ r q. Leaves-pure same (r.0, none) q)

  pub Writes-update_state_trie_for_entry :
      (am : ℕ) (a : Bytes) (e : AccountEntry)
      → Writes am a e (update_state_trie_for_entry sha fuel am a e)
  unfolding update_state_trie_for_entry
  Writes-update_state_trie_for_entry am a e =
      Writes-after am a (λ r. Fields r.0 e) e (prepare_hash sha fuel e) _ (Leaves-prepare_hash e)
        (λ r q.
          Writes-before am a e (store_entry am a r.0) _
            (Writes-Fields am a r.0 e (store_entry am a r.0) q (Writes-store_entry am a r.0))
            (λ done.
              Leaves->>= Any Any (compute sha fuel r.0 r.1 none) _ (Leaves-compute r.0 r.1 none)
                (λ hash q. hashed hash)))
    where
      hashed :
          (hash : Option Bytes)
          → Leaves {A = Unit {0}} Any
              (elim hash [ none ↦ pure tt | some h ↦ insert_state_trie_hash sha fuel am a h ])
      hashed none = Leaves-pure Any tt tt
      hashed (some h) = Leaves-insert_state_trie_hash am a h
