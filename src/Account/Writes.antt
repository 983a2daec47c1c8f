-- ===== src/Account/Writes.antt =====
-- Writes to the entry of one address of an account map of c_src/nif.cpp, as steps that do no more.
use diode_server.Base.{
  ℕ, ◌≡◌, refl, ap, sym, ◌∙◌, Bool, true, false, none, some, Bool-cases, inl, inr, if◌then◌else◌,
  eq_of_some, List, [], ◌∷◌, set, ==_refl, length, ◌<◌,
}
use diode_server.Base.Cells.{get_or-set, set-set, some-length}
use diode_server.Base.Bytes.{Bytes, bin_eq, bin_eq_sound, bin_eq_refl}
use diode_server.Resource.{at}
use diode_server.Account.{
  AccountEntry, SharedAccountMap, World, M, ◌>>=◌, load_map, store_map, store_entry, find_account,
  set_account,
}
use diode_server.Account.Frozen.{>>=-some}
use diode_server.Account.Leaves.{Leaves, Any, load_map-some, Fields, Fields-refl}

pub find_account-set_account :
    (accounts : List (Bytes × AccountEntry)) (a b : Bytes) (e : AccountEntry)
    → find_account (set_account accounts a e) b
      ≡ (if bin_eq a b then some e else find_account accounts b)
unfolding find_account set_account
find_account-set_account [] a b e = refl
find_account-set_account (account ∷ accounts) a b e = elim (Bool-cases (bin_eq account.0 a)) [
  | inl same ↦ rw (same, bin_eq_sound account.0 a same) (by_case (bin_eq a b))
  | inr apart ↦ rw (apart, find_account-set_account accounts a b e) (ahead apart)
]
  where
    by_case :
        (t : Bool)
        → (if t then some e else find_account accounts b)
          ≡ (if t then some e else (if t then some account.1 else find_account accounts b))
    by_case true = refl
    by_case false = refl

    ahead :
        bin_eq account.0 a ≡ false
        → (if bin_eq account.0 b
            then some account.1
            else (if bin_eq a b then some e else find_account accounts b))
          ≡ (if bin_eq a b
              then some e
              else (if bin_eq account.0 b then some account.1 else find_account accounts b))
    ahead apart = elim (Bool-cases (bin_eq a b)) [
      | inl same ↦
          rw (same, ap (λ c. bin_eq account.0 c) (sym (bin_eq_sound a b same)) ∙ apart) refl
      | inr other ↦ rw other refl
    ]

set_account-set_account :
    (accounts : List (Bytes × AccountEntry)) (a : Bytes) (e e' : AccountEntry)
    → set_account (set_account accounts a e) a e' ≡ set_account accounts a e'
unfolding set_account
set_account-set_account [] a e e' = rw (bin_eq_refl a) refl
set_account-set_account (account ∷ accounts) a e e' = elim (Bool-cases (bin_eq account.0 a)) [
  | inl same ↦ rw (same, same) refl
  | inr apart ↦ rw (apart, apart, set_account-set_account accounts a e e') refl
]

-- The entry of an address of a map was written, and nothing else of any map.
pub record Puts (am : ℕ) (a : Bytes) (new : AccountEntry) (w w' : World) : Type 0 where
  pub shared : SharedAccountMap
  pub entry : AccountEntry
  pub there : at w.maps am ≡ some shared
  pub maps :
      w'.maps
      ≡ set w.maps am (some (record shared { accounts = set_account shared.accounts a entry }))
  pub fields : Fields entry new

-- A step that does so where it returns
abbrev pub Writes : {A : Type 0} → ℕ → Bytes → AccountEntry → M A → Type 0
Writes {A} am a new m = (w w' : World) (x : A) → m w ≡ some (x, w') → Puts am a new w w'

module _ (am : ℕ) (a : Bytes) where
  Fields-trans : {x y z : AccountEntry} → Fields x y → Fields y z → Fields x z
  Fields-trans p q = record {
    nonce = p.nonce ∙ q.nonce;
    balance = p.balance ∙ q.balance;
    code = p.code ∙ q.code;
  }

  -- The same between worlds with the same maps
  pub Puts-maps :
      {e new : AccountEntry} {w₁ w₂ : World} (w w' : World)
      → w₁.maps ≡ w.maps
      → w'.maps ≡ w₂.maps
      → Fields e new
      → Puts am a e w₁ w₂
      → Puts am a new w w'
  Puts-maps w w' from to same put = record {
    shared = put.shared;
    entry = put.entry;
    there = sym (ap (λ ms. at ms am) from) ∙ put.there;
    maps =
        to
        ∙ put.maps
        ∙ ap
            (λ ms.
              set ms am (
                some
                  (record put.shared { accounts = set_account put.shared.accounts a put.entry })))
            from;
    fields = Fields-trans put.fields same;
  }

  pub Writes-after :
      {A B : Type 0} (P : A → Type 0) (new : AccountEntry) (m : M A) (rest : A → M B)
      → Leaves P m
      → ((x : A) → P x → Writes am a new (rest x))
      → Writes am a new (m >>= rest)
  Writes-after P new m rest k ks w w' b run =
      let (x, w₁, first, last) = >>=-some m rest w w' b run in
      let (maps, p) = k w w₁ x first in
      Puts-maps w w' maps refl (Fields-refl new) (ks x p w₁ w' b last)

  pub Writes-before :
      {A B : Type 0} (new : AccountEntry) (m : M A) (rest : A → M B)
      → Writes am a new m
      → ((x : A) → Leaves Any (rest x))
      → Writes am a new (m >>= rest)
  Writes-before new m rest k ks w w' b run =
      let (x, w₁, first, last) = >>=-some m rest w w' b run in
      Puts-maps w w' refl (ks x w₁ w' b last).0 (Fields-refl new) (k w w₁ x first)

  pub Writes-store_entry : (e : AccountEntry) → Writes am a e (store_entry am a e)
  Writes-store_entry e w w' x run =
      let write : SharedAccountMap → M (Unit {0}) =
        λ s. store_map am (some (record s { accounts = set_account s.accounts a e })) in
      let (shared, w₁, first, last) = >>=-some (load_map am) write w w' x run in
      let (same, there) = load_map-some am w w₁ shared first in
      record {
        shared = shared;
        entry = e;
        there = there;
        maps =
            sym (ap (λ r. r.1.maps) (eq_of_some last))
            ∙ ap
                (λ v.
                  set v.maps am
                    (some (record shared { accounts = set_account shared.accounts a e })))
                same;
        fields = Fields-refl e;
      }

  pub Writes-Fields :
      {A : Type 0} (e new : AccountEntry) (m : M A)
      → Fields e new
      → Writes am a e m
      → Writes am a new m
  Writes-Fields e new m same k w w' x run = Puts-maps w w' refl refl same (k w w' x run)

  -- Of two writes to an address the last one is left.
  pub Puts-trans :
      {e new : AccountEntry} {w w₁ w' : World}
      → Puts am a e w w₁
      → Puts am a new w₁ w'
      → Puts am a new w w'
  Puts-trans {w = w} first last =
      let bound : am < length w.maps = some-length w.maps am first.there in
      let written = record first.shared {
        accounts = set_account first.shared.accounts a first.entry;
      } in
      let now : some written ≡ some last.shared =
        sym (
          ap (λ ms. at ms am) first.maps
          ∙ get_or-set w.maps am am (some written) none bound
          ∙ rw (==_refl am) refl)
        ∙ last.there in
      record {
        shared = first.shared;
        entry = last.entry;
        there = first.there;
        maps =
            last.maps
            ∙ rw
                (
                  ← eq_of_some now,
                  first.maps,
                  set_account-set_account first.shared.accounts a first.entry last.entry,
                )
                (set-set w.maps am (some written) _);
        fields = last.fields;
      }
