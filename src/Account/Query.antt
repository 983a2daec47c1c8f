-- ===== src/Account/Query.antt =====
-- The functions of the NIF on the storage of one account and on proofs (`account_map_storage`,
-- `account_map_storage_roots` and `account_map_proof` of c_src/nif.cpp).
use diode_server.Base.{ℕ, true, ◌||◌, Option, none, some, [], ◌∷◌, ltb, ◌^◌, if◌then◌else◌}
use diode_server.Base.Bytes.{Bytes}
use diode_server.Trie.{empty}
use diode_server.Merkle.{root_hash, get_proofs}
use diode_server.Terms.{
  Term, integer, tuple2, tuple3, badarg, inspect_binary, term_is_atom_named, get_address,
  binary_of_size,
}
use diode_server.Resource.{with_tree}
use diode_server.Account.{
  AccountEntry, M, ◌>>=◌, ◌>>◌, pure, on_heap, lift, load_map, load_compact, store_compact,
  empty_storage, find_account, with_map, with_address,
}
use diode_server.Account.Entry.{tree_of_slots, storage_root_hash_for_entry}
use diode_server.Account.Read.{
  make_proof, make_tree_roots_blob, materialize_at, account_map_storage_get_helper,
  account_map_storage_get_range_helper, account_map_storage_to_list_helper,
  account_map_storage_size_helper,
}

-- `enif_get_uint`
abbrev pub get_uint : Term → Option ℕ
get_uint term = elim term [ integer n ↦ if ltb n (2 ^ 32) then some n else none | _ ↦ none ]

module _ (sha : Bytes → Bytes) (fuel : ℕ) where
  -- `account_map_storage` at the specification `{get, key}`
  unfoldable pub storage_get : ℕ → Bytes → Term → M Term
  unfolding binary_of_size account_map_storage_get_helper
  storage_get am addr key_term = elim (binary_of_size 32 key_term) [
    | none ↦ pure badarg
    | some key ↦ account_map_storage_get_helper sha fuel am addr key
  ]

  -- At the specification `{range, key, count}`
  unfoldable pub storage_range : ℕ → Bytes → Term → Term → M Term
  unfolding binary_of_size account_map_storage_get_range_helper
  storage_range am addr key_term count_term = elim (binary_of_size 32 key_term) [
    | none ↦ pure badarg
    | some key ↦ elim (get_uint count_term) [
      | none ↦ pure badarg
      | some count ↦
          if ltb count 1 || ltb 256 count
          then pure badarg
          else account_map_storage_get_range_helper sha fuel am addr key count
    ]
  ]

  -- `account_map_storage`
  unfoldable pub account_map_storage : Term → Term → Term → M Term
  unfolding get_address term_is_atom_named account_map_storage_to_list_helper
      account_map_storage_size_helper storage_get storage_range
  account_map_storage map addr_term spec = with_map map λ am. with_address addr_term λ addr.
      if term_is_atom_named spec "list"
      then account_map_storage_to_list_helper sha fuel am addr
      else if term_is_atom_named spec "size"
      then account_map_storage_size_helper sha fuel am addr
      else elim spec [
        | tuple2 tag key ↦
            if term_is_atom_named tag "get" then storage_get am addr key else pure badarg
        | tuple3 tag key count ↦
            if term_is_atom_named tag "range" then storage_range am addr key count else pure badarg
        | _ ↦ pure badarg
      ]

  -- The roots of the empty storage
  unfoldable pub empty_roots : M Term
  unfolding with_tree make_tree_roots_blob
  empty_roots = do mt ← empty_storage; on_heap (with_tree mt (make_tree_roots_blob sha fuel))

  -- The roots of compact slots: of the empty storage, or of a tree made for them, whose root is
  -- remembered
  unfoldable pub compact_roots : AccountEntry → ℕ → M Term
  unfolding storage_root_hash_for_entry tree_of_slots make_tree_roots_blob empty_roots
  compact_roots e c = do
    compact ← load_compact c
    elim compact.slots [
      | [] ↦ (do root ← storage_root_hash_for_entry sha fuel e; empty_roots)
      | slot ∷ slots ↦ (do
        temp ← lift (tree_of_slots sha fuel empty compact.slots)
        temp' ←
            (if compact.has_root then pure temp else (do
              (t, root) ← lift (root_hash sha fuel temp)
              store_compact c (record compact { root_hash = root; has_root = true })
              pure t))
        (t, blob) ← lift (make_tree_roots_blob sha fuel temp')
        pure blob)
    ]

  -- `account_map_storage_roots`
  unfoldable pub account_map_storage_roots : Term → Term → M Term
  unfolding get_address find_account with_tree make_tree_roots_blob materialize_at empty_roots
      compact_roots
  account_map_storage_roots map addr_term = with_map map λ am. with_address addr_term λ addr. do
    shared ← load_map am
    elim (find_account shared.accounts addr) [
      | none ↦ empty_roots
      | some e ↦ elim e.storage [
        | some mt ↦ on_heap (with_tree mt (make_tree_roots_blob sha fuel))
        | none ↦ elim e.compact_storage [
          | some c ↦ compact_roots e c
          | none ↦ (do
            mt ← materialize_at sha fuel am addr e
            on_heap (with_tree mt (make_tree_roots_blob sha fuel)))
        ]
      ]
    ]

  module _ (binary_to_term : Bytes → Option Term) where
    -- The proof of a key in the tree of a resource
    unfoldable pub proof_in : ℕ → Bytes → M Term
    unfolding with_tree make_proof
    proof_in mt key = do
      proof ← on_heap (with_tree mt λ t. get_proofs sha fuel t key)
      pure (make_proof binary_to_term proof)

    -- `account_map_proof` with two arguments
    unfoldable pub account_map_proof : Term → Term → M Term
    unfolding get_address proof_in
    account_map_proof map addr_term = with_map map λ am.
        with_address addr_term λ addr. do shared ← load_map am; proof_in shared.state_trie addr

    -- `account_map_proof` with three arguments
    unfoldable pub account_map_storage_proof : Term → Term → Term → M Term
    unfolding get_address find_account materialize_at proof_in
    account_map_storage_proof map addr_term key_term = with_map map λ am.
        with_address addr_term λ addr. elim (inspect_binary key_term) [
          | none ↦ pure badarg
          | some key ↦ (do
            shared ← load_map am
            mt ← elim (find_account shared.accounts addr) [
              | none ↦ empty_storage
              | some e ↦ materialize_at sha fuel am addr e
            ]
            proof_in mt key)
        ]
