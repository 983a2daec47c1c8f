-- ===== src/Account/Delete.antt =====
-- What `account_map_delete` of c_src/nif.cpp makes of the accounts of a map, and of the other maps.
mod Tests
use diode_server.Base.{
  ℕ, ◌≡◌, refl, ap, sym, subst, ◌∙◌, Bool, true, false, Option, none, some, Option-cases,
  Bool-cases, inl, inr, if◌then◌else◌, eq_of_some, ◌==◌, List, [], ◌∷◌, get_or, set,
}
use diode_server.Base.Cells.{get_or-set, set_same, some-length}
use diode_server.Base.Bytes.{Bytes, bin_eq, bin_eq_sound}
use diode_server.Terms.{Term, resource, badarg, get_address}
use diode_server.Nif.{zeros}
use diode_server.Resource.{at}
use diode_server.Account.{
  AccountEntry, SharedAccountMap, World, M, ◌>>=◌, ◌>>◌, pure, load_map, store_map, find_account,
  erase_account, with_address,
}
use diode_server.Account.Entry.{release_entry_storage, remove_state_trie_entry}
use diode_server.Account.Change.{account_map_delete}
use diode_server.Account.Frozen.{>>=-some}
use diode_server.Account.Leaves.{
  Leaves, Any, Leaves-pure, load_map-some, Leaves-release_entry_storage,
}
use diode_server.Account.Update.{Leaves-insert_state_trie_hash}

-- No address has two accounts, as in a hash table.
abbrev pub Distinct : List (Bytes × AccountEntry) → Type 0
Distinct [] = Unit {0}
Distinct (account ∷ accounts) = (find_account accounts account.0 ≡ none) × Distinct accounts

find_account-erase_account :
    (accounts : List (Bytes × AccountEntry)) (a b : Bytes)
    → Distinct accounts
    → find_account (erase_account accounts a) b
      ≡ (if bin_eq a b then none else find_account accounts b)
unfolding find_account erase_account
find_account-erase_account [] a b d = elim (Bool-cases (bin_eq a b)) [
  | inl same ↦ rw same refl
  | inr apart ↦ rw apart refl
]
find_account-erase_account (account ∷ accounts) a b d = elim (Bool-cases (bin_eq account.0 a)) [
  | inl here ↦
      let same = bin_eq_sound account.0 a here in
      elim (Bool-cases (bin_eq a b)) [
        | inl at_b ↦
            rw (here, at_b) (ap (find_account accounts) (sym (same ∙ bin_eq_sound a b at_b)) ∙ d.0)
        | inr apart ↦ rw (here, apart, ap (λ c. bin_eq c b) same ∙ apart) refl
      ]
  | inr ahead ↦ elim (Bool-cases (bin_eq a b)) [
    | inl at_b ↦
        rw
          (
            ahead,
            ap (bin_eq account.0) (sym (bin_eq_sound a b at_b)) ∙ ahead,
            find_account-erase_account accounts a b d.1,
            at_b,
          )
          refl
    | inr apart ↦ rw (ahead, find_account-erase_account accounts a b d.1, apart) refl
  ]
]

Distinct-erase_account :
    (accounts : List (Bytes × AccountEntry)) (a : Bytes)
    → Distinct accounts
    → Distinct (erase_account accounts a)
unfolding erase_account
Distinct-erase_account [] a d = tt
Distinct-erase_account (account ∷ accounts) a d = elim (Bool-cases (bin_eq account.0 a)) [
  | inl here ↦ rw here d.1
  | inr ahead ↦ rw ahead (
    find_account-erase_account accounts a account.0 d.1 ∙ elim (Bool-cases (bin_eq a account.0)) [
      | inl same ↦ rw same refl
      | inr apart ↦ rw apart d.0
    ],
    Distinct-erase_account accounts a d.1,
  )
]

erase_account_absent :
    (accounts : List (Bytes × AccountEntry)) (a : Bytes)
    → find_account accounts a ≡ none
    → erase_account accounts a ≡ accounts
unfolding find_account erase_account
erase_account_absent [] a e = refl
erase_account_absent (account ∷ accounts) a e =
    by_case (bin_eq account.0 a) (erase_account_absent accounts a) e
  where
    by_case :
        (here : Bool)
        → (find_account accounts a ≡ none → erase_account accounts a ≡ accounts)
        → (if here then some account.1 else find_account accounts a) ≡ none
        → (if here then accounts else account ∷ erase_account accounts a) ≡ account ∷ accounts
    by_case true rest e = cc
    by_case false rest e = ap (λ r. account ∷ r) (rest e)

-- The account of an address is not in the map, and nothing else of any map was changed.
record Erases (am : ℕ) (a : Bytes) (w w' : World) : Type 0 where
  shared : SharedAccountMap
  there : at w.maps am ≡ some shared
  maps :
      w'.maps ≡ set w.maps am (some (record shared { accounts = erase_account shared.accounts a }))

module _ (sha : Bytes → Bytes) (fuel : ℕ) where
  account_map_delete-Erases :
      (am : ℕ) (addr : Term) (a : Bytes) (w w' : World)
      → get_address addr ≡ some a
      → account_map_delete sha fuel (resource am) addr w ≡ some (resource am, w')
      → Erases am a w w'
  unfolding account_map_delete remove_state_trie_entry
  account_map_delete-Erases am addr a w w' given = rw (given, with_address) loaded
    where
      erased : SharedAccountMap → SharedAccountMap
      erased shared = record shared { accounts = erase_account shared.accounts a }

      delete : SharedAccountMap → Option AccountEntry → M (Unit {0})
      delete shared found = elim found [
        | none ↦ pure tt
        | some e ↦ release_entry_storage e >>= λ e'.
            store_map am (some (erased shared)) >>= λ done. remove_state_trie_entry sha fuel am a
      ]

      deleted :
          (shared : SharedAccountMap) (found : Option AccountEntry) (w w' : World)
          → find_account shared.accounts a ≡ found
          → at w.maps am ≡ some shared
          → delete shared found w ≡ some (tt, w')
          → w'.maps ≡ set w.maps am (some (erased shared))
      deleted shared none w w' absent there run =
          (Leaves-pure Any tt tt w w' tt run).0
          ∙ sym (
              ap (λ xs. set w.maps am (some (record shared { accounts = xs })))
                (erase_account_absent shared.accounts a absent)
              ∙ set_same w.maps am shared there)
      deleted shared (some e) w w' found there run =
          let write = store_map am (some (erased shared)) in
          let remove = remove_state_trie_entry sha fuel am a in
          let (e', w₁, first, rest) =
            >>=-some (release_entry_storage e) (λ e'. write >>= λ done. remove) w w' tt run in
          let (done, w₂, second, last) = >>=-some write (λ done. remove) w₁ w' tt rest in
          (Leaves-insert_state_trie_hash sha fuel am a zeros w₂ w' tt last).0
          ∙ sym (ap (λ r. r.1.maps) (eq_of_some second))
          ∙ ap (λ ms. set ms am (some (erased shared)))
              (Leaves-release_entry_storage e w w₁ e' first).0

      writeable : M Term
      writeable = load_map am >>= λ shared.
          delete shared (find_account shared.accounts a) >>= λ done. pure (resource am)

      unfrozen :
          (frozen : Bool) (w : World)
          → (if frozen then pure badarg else writeable) w ≡ some (resource am, w')
          → Erases am a w w'
      unfrozen true w run = cc
      unfrozen false w run =
          let (shared, w₁, first, rest) = >>=-some (load_map am) _ w w' (resource am) run in
          let (same, there) = load_map-some am w w₁ shared first in
          let (done, w₂, second, last) =
            >>=-some (delete shared (find_account shared.accounts a)) (λ done. pure (resource am))
              w₁ w' (resource am) rest in
          record {
            shared = shared;
            there = there;
            maps =
                (Leaves-pure Any (resource am) tt w₂ w' (resource am) last).0
                ∙ deleted shared (find_account shared.accounts a) w₁ w₂ refl
                    (ap (λ v. at v.maps am) same ∙ there) second
                ∙ ap (λ v. set v.maps am (some (erased shared))) same;
          }

      loaded :
          (load_map am >>= λ s. if s.frozen then pure badarg else writeable) w
            ≡ some (resource am, w')
          → Erases am a w w'
      loaded run =
          let (s, w₁, first, last) = >>=-some (load_map am) _ w w' (resource am) run in
          let (same, there) = load_map-some am w w₁ s first in
          subst (λ v. Erases am a v w') same (unfrozen s.frozen w₁ last)

  -- A deletion that gives back a map without two accounts at one address leaves such a map, without
  -- an account at the address. It changes no other account of it, nor the state trie that it points to
  -- nor whether it is frozen, and every other map is as it was.
  pub account_map_delete-find_account :
      (am : ℕ) (addr : Term) (a : Bytes) (before : SharedAccountMap) (w w' : World) (b : Bytes)
      (other : ℕ)
      → get_address addr ≡ some a
      → at w.maps am ≡ some before
      → Distinct before.accounts
      → account_map_delete sha fuel (resource am) addr w ≡ some (resource am, w')
      → (after : SharedAccountMap) × (at w'.maps other
          ≡ (if am == other then some after else at w.maps other))
        × (after.frozen ≡ before.frozen)
        × (after.state_trie ≡ before.state_trie)
        × Distinct after.accounts
        × (find_account after.accounts b
            ≡ (if bin_eq a b then none else find_account before.accounts b))
  account_map_delete-find_account am addr a before w w' b other given there distinct run =
      let gone = account_map_delete-Erases am addr a w w' given run in
      let same : gone.shared ≡ before = eq_of_some (sym gone.there ∙ there) in
      let after = record before { accounts = erase_account before.accounts a } in
      (
        after,
        ap (λ ms. at ms other) gone.maps
            ∙ get_or-set w.maps am other
                (some (record gone.shared { accounts = erase_account gone.shared.accounts a })) none
                (some-length w.maps am gone.there)
            ∙ ap
                (λ s.
                  if am == other
                  then some (record s { accounts = erase_account s.accounts a })
                  else at w.maps other)
                same,
        refl,
        refl,
        Distinct-erase_account before.accounts a distinct,
        find_account-erase_account before.accounts a b distinct,
      )
