-- ===== src/Merkle/Store.antt =====
-- The trie as a store: writes, lookups and the root hash of whole tries, and the runs of these
-- operations from the empty trie.
use diode_server.Base.{
  ℕ, zero, suc, ◌≤◌, ◌<◌, ◌≡◌, refl, Bool, true, false, none, some, List, [], ◌∷◌, sym, ap, ◌∙◌,
  arith, Bool-cases, inl, inr, subst, leb, length, >>=-eq-some, eq_of_some, if◌then◌else◌, if_true,
  if_false,
}
use diode_server.Base.Bytes.{Bytes, bin_eq}
use diode_server.Pairs.{Pair, leaf_size, is_null, make_pair, map_get, map_put}
use diode_server.Bits.{push_back}
use diode_server.Erl.{to_erl_ext}
use diode_server.Trie.{
  fresh, side, Header, Item, leaf, inner, empty, decide, each, set_dirty, split_node, insert_path,
  get_item,
}
use diode_server.Merkle.{insert_item, hashes, update_merkle_hash_count, root_hash}
use diode_server.Trie.Valid.{IsValid, prefix_of}
use diode_server.Trie.Insert.{Writes, insert_path-Writes}
use diode_server.Trie.Outcome.{NoCollision, insert_path_total}
use diode_server.Trie.Content.{content, content-Sorted, content-Stored}
use diode_server.Merkle.Canon.{Canonical, IsCached, get_item-content, update-Canonical}
use diode_server.Merkle.History.{
  Holds, Canonical-unique, Canonical-Holds, height, update_total, content_eq,
}

module _ (sha : Bytes → Bytes) where
  -- A valid trie whose clean nodes are up to date.
  pub record IsTree (t : Item) : Type 0 where
    pub valid : IsValid sha [] t
    pub cached : IsCached sha [] t

  pub empty-IsTree : IsTree empty
  unfolding prefix_of
  empty-IsTree = record { valid = (refl, tt, omega arith, tt); cached = λ e. cc }

  split_node-IsCached :
      (fuel : ℕ) (path : List Bool) (h : Header) (b : List Pair) (t : Item)
      → split_node fuel h b ≡ some t
      → IsCached sha path (set_dirty true t) × (h.dirty ≡ true → IsCached sha path t)
  unfolding split_node
  split_node-IsCached zero path h b t run = cc
  split_node-IsCached (suc fuel) path h b t run = elim (Bool-cases (leb (length b) leaf_size)) [
    | inl small ↦
        subst Cached (eq_of_some (sym (if_true _ _ small) ∙ run)) ((λ e. cc), λ d e. cc (d, e))
    | inr large ↦
        let (to_left, push_l, rest₁) =
          >>=-eq-some (push_back h.prefix false) _ (sym (if_false _ _ large) ∙ run) in
        let (to_right, push_r, rest₂) = >>=-eq-some (push_back h.prefix true) _ rest₁ in
        let n = h.prefix.size in
        let (l, run_l, rest) =
          >>=-eq-some (split_node fuel (fresh to_left) (side true n b)) _ rest₂ in
        let (r, run_r, last) =
          >>=-eq-some (split_node fuel (fresh to_right) (side false n b)) _ rest in
        let cl = (split_node-IsCached fuel (false ∷ path) _ _ l run_l).1 refl in
        let cr = (split_node-IsCached fuel (true ∷ path) _ _ r run_r).1 refl in
        subst Cached {x = inner (record h { dirty = true }) l r} (eq_of_some last)
          (((λ e. cc), cl, cr), λ d. ((λ e. cc), cl, cr))
  ]
    where
      Cached : Item → Type 0
      Cached u = IsCached sha path (set_dirty true u) × (h.dirty ≡ true → IsCached sha path u)

  pub insert_path-IsCached :
      (fuel : ℕ) (path : List Bool) (t : Item) (p : Pair) (t' : Item)
      → IsCached sha path t
      → insert_path fuel t p ≡ some t'
      → IsCached sha path t'
  unfolding insert_path
  insert_path-IsCached fuel path (leaf h b) p t' c run = elim (Bool-cases (is_null p.value)) [
    | inl gone ↦ subst (IsCached sha path) (eq_of_some (sym (if_true _ _ gone) ∙ run)) (λ e. cc)
    | inr live ↦
        let (t, run_t, last) = >>=-eq-some _ _ (sym (if_false _ _ live) ∙ run) in
        subst (IsCached sha path) (eq_of_some last)
          (split_node-IsCached fuel path h (map_put b p) t run_t).0
  ]
  insert_path-IsCached fuel path (inner h l r) p t' c run =
      elim (Bool-cases (decide p h.prefix.size)) [
        | inl d ↦
            let (l', run_l, last) = >>=-eq-some _ _ (sym (if_true _ _ d) ∙ run) in
            subst (IsCached sha path) {x = inner (record h { dirty = true }) l' r} (eq_of_some last)
              ((λ e. cc), insert_path-IsCached fuel (false ∷ path) l p l' c.1 run_l, c.2)
        | inr d ↦
            let (r', run_r, last) = >>=-eq-some _ _ (sym (if_false _ _ d) ∙ run) in
            subst (IsCached sha path) {x = inner (record h { dirty = true }) l r'} (eq_of_some last)
              ((λ e. cc), c.1, insert_path-IsCached fuel (true ∷ path) r p r' c.2 run_r)
      ]

  -- A write to a well-formed trie gives one in which a lookup of the key finds what was written,
  -- nothing if the value is null, and a lookup of any other key finds what it found before.
  pub get_item-insert_item :
      (fuel : ℕ) (t t' : Item) (key value : Bytes)
      → IsTree t
      → insert_item sha fuel t key value ≡ some t'
      → IsTree t'
        × ((other : Bytes)
            → get_item t' (make_pair sha other []) ≡ (
                if bin_eq key other
                then (if is_null value then none else some (make_pair sha key value))
                else get_item t (make_pair sha other [])))
  unfolding insert_item
  get_item-insert_item fuel t t' key value w run =
      let done : Writes sha [] t (make_pair sha key value) t' =
        insert_path-Writes sha fuel [] t (make_pair sha key value) t' w.valid refl tt run in
      (
        record {
          valid = done.valid;
          cached = insert_path-IsCached fuel [] t (make_pair sha key value) t' w.cached run;
        },
        λ other. done.finds (make_pair sha other []) refl,
      )

  -- With fuel for more than 128 bits a write to a well-formed trie returns a trie, and no prefix leaves
  -- its 16 bytes, if the hashes of different keys among the stored ones and the new one differ in their
  -- first 128 bits.
  pub insert_item_total :
      (fuel : ℕ) (t : Item) (key value : Bytes)
      → 128 < fuel
      → IsTree t
      → NoCollision (make_pair sha key value ∷ each t)
      → (t' : Item) × (insert_item sha fuel t key value ≡ some t')
  unfolding insert_item
  insert_item_total fuel t key value enough w c =
      insert_path_total sha fuel [] t (make_pair sha key value) enough w.valid tt c

  update_lem :
      (fuel : ℕ) (t t' : Item)
      → IsTree t
      → update_merkle_hash_count sha fuel t ≡ some t'
      → Canonical sha [] (content t) t' × Holds sha [] (content t) t'
  update_lem fuel t t' w run =
      let canon = update-Canonical sha fuel [] t t' w.valid w.cached run in
      (
        canon,
        Canonical-Holds sha [] (content t) t' (content-Sorted sha [] t w.valid)
            (content-Stored sha [] t w.valid) canon,
      )

  -- Computing the root hash leaves a well-formed trie with the same lookups.
  pub get_item-root_hash :
      (fuel : ℕ) (t t' : Item) (digest : Bytes)
      → IsTree t
      → root_hash sha fuel t ≡ some (t', digest)
      → IsTree t'
        × ((key : Bytes) → get_item t' (make_pair sha key []) ≡ get_item t (make_pair sha key []))
  unfolding root_hash
  get_item-root_hash fuel t t' digest w run =
      let (u, run_u, last) = >>=-eq-some _ _ run in
      let same : u ≡ t' = ap (λ p. p.0) (eq_of_some last) in
      let held : Holds sha [] (content t) t' =
        subst (Holds sha [] (content t)) same (update_lem fuel t u w run_u).1 in
      (
        record { valid = held.valid; cached = held.cached },
        λ key.
            get_item-content sha [] t' (make_pair sha key []) held.valid refl
            ∙ ap (λ xs. map_get xs key) held.holds
            ∙ sym (get_item-content sha [] t (make_pair sha key []) w.valid refl),
      )

  -- The root hash and the updated trie depend on the lookups alone: two well-formed tries in which
  -- every key has the same pair, or none, update to one trie with one root hash.
  pub root_hash_unique :
      (fuel more : ℕ) (t u t' u' : Item) (digest other : Bytes)
      → IsTree t
      → IsTree u
      → ((key : Bytes) → get_item t (make_pair sha key []) ≡ get_item u (make_pair sha key []))
      → root_hash sha fuel t ≡ some (t', digest)
      → root_hash sha more u ≡ some (u', other)
      → (t' ≡ u') × (digest ≡ other)
  unfolding root_hash
  root_hash_unique fuel more t u t' u' digest other w v same run_t run_u =
      let (t₁, up_t, last_t) = >>=-eq-some (update_merkle_hash_count sha fuel t) _ run_t in
      let (u₁, up_u, last_u) = >>=-eq-some (update_merkle_hash_count sha more u) _ run_u in
      let contents : content t ≡ content u = content_eq sha [] t u w.valid v.valid same in
      let canon_u : Canonical sha [] (content t) u₁ =
        subst (λ xs. Canonical sha [] xs u₁) (sym contents) (update_lem more u u₁ v up_u).0 in
      let tries : t₁ ≡ u₁ =
        Canonical-unique sha [] (content t) t₁ u₁ (update_lem fuel t t₁ w up_t).0 canon_u in
      let pt = eq_of_some last_t in
      let pu = eq_of_some last_u in
      (
        sym (ap (λ p. p.0) pt) ∙ tries ∙ ap (λ p. p.0) pu,
        sym (ap (λ p. p.1) pt) ∙ ap (λ v. sha (to_erl_ext [] (hashes v))) tries ∙ ap (λ p. p.1) pu,
      )

  -- With fuel for the levels of a well-formed trie the root hash is computed.
  pub root_hash_total :
      (fuel : ℕ) (t : Item)
      → height t ≤ fuel
      → IsTree t
      → (t' : Item) × (digest : Bytes) × (root_hash sha fuel t ≡ some (t', digest))
  unfolding root_hash
  root_hash_total fuel t enough w =
      let (t', run) = update_total sha fuel [] t enough w.valid in
      (t', sha (to_erl_ext [] (hashes t')), rw run)

  -- A call of `insert_item` (`delete_item` is one) or `root_hash` that returns.
  pub data Step (fuel : ℕ) : Item → Item → Type 0 where
    wrote :
        {t t' : Item} (key value : Bytes)
        → insert_item sha fuel t key value ≡ some t'
        → Step fuel t t'
    rooted :
        {t t' : Item} (digest : Bytes) → root_hash sha fuel t ≡ some (t', digest) → Step fuel t t'

  pub data Reach (fuel : ℕ) : Item → Type 0 where
    start : Reach fuel empty
    next : {t t' : Item} → Reach fuel t → Step fuel t t' → Reach fuel t'

  -- Every trie that calls lead to from the empty one is well formed.
  pub Reach-IsTree : (fuel : ℕ) {t : Item} → Reach fuel t → IsTree t
  Reach-IsTree fuel start = empty-IsTree
  Reach-IsTree fuel (next {t} {t'} r (wrote key value run)) =
      (get_item-insert_item fuel t t' key value (Reach-IsTree fuel r) run).0
  Reach-IsTree fuel (next {t} {t'} r (rooted digest run)) =
      (get_item-root_hash fuel t t' digest (Reach-IsTree fuel r) run).0
