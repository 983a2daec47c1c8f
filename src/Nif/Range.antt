-- ===== src/Nif/Range.antt =====
-- Ranges of storage slots (`uint256_increment` and `get_range_entries` in c_src/nif.cpp): the keys
-- count up from the first.
use native.Mathlib.Nat.{pow-suc, add-mul}
use diode_server.Base.{
  ℕ, zero, suc, ◌+◌, ◌-◌, ◌*◌, ◌^◌, ◌≤◌, ◌<◌, ◌≡◌, refl, ap, subst, ◌∙◌, Bool, false, List, [], ◌∷◌,
  ◌==◌, ==→eq, ==→ne, if◌then◌else◌, length, All, arith, Bool-cases, inl, inr,
}
use diode_server.Base.Bytes.{Bytes}
use diode_server.Trie.{Item}
use diode_server.Nif.{uint256_increment, read_storage_slot, range_from, get_range_entries}

-- The number that bytes stand for, the highest first.
unfoldable pub number : Bytes → ℕ
number [] = 0
number (b ∷ bytes) = b * 256 ^ length bytes + number bytes

-- What the increment of a key is: the next number, or zero behind an overflow.
record Next (key : Bytes) (r : Bytes × Bool) : Type 0 where
  pub len : length r.0 ≡ length key
  pub bytes : All (λ x. x < 256) r.0
  pub counted : number r.0 + (if r.1 then 0 else 256 ^ length key) ≡ number key + 1

uint256_increment-Next : (key : Bytes) → All (λ x. x < 256) key → Next key (uint256_increment key)
unfolding uint256_increment number
uint256_increment-Next [] a = record { len = refl; bytes = tt; counted = refl }
uint256_increment-Next (b ∷ key) (h, a) =
    let ih = uint256_increment-Next key a in
    let same = ih.len in
    elim (Bool-cases (uint256_increment key).1) [
      | inl e ↦
          let count : number (uint256_increment key).0 + 0 ≡ number key + 1 =
            subst
              (λ c.
                number (uint256_increment key).0 + (if c then 0 else 256 ^ length key)
                ≡ number key + 1)
              e ih.counted in
          rw e (record {
            len = ap suc same;
            bytes = (h, ih.bytes);
            counted = rw same (omega (arith, count));
          })
      | inr e ↦
          let count : number (uint256_increment key).0 + 256 ^ length key ≡ number key + 1 =
            subst
              (λ c.
                number (uint256_increment key).0 + (if c then 0 else 256 ^ length key)
                ≡ number key + 1)
              e ih.counted in
          let power = pow-suc 256 (length key) in
          rw e (elim (Bool-cases (b == 0xff)) [
            | inl last ↦
                let full : b ≡ 255 = ==→eq b 0xff last in
                let top : b * 256 ^ length key ≡ 255 * 256 ^ length key =
                  ap (λ (x : ℕ). x * 256 ^ length key) full in
                rw last (record {
                  len = ap suc same;
                  bytes = (omega arith, ih.bytes);
                  counted = omega (arith, count, top, power);
                })
            | inr more ↦
                let below : b + 1 < 256 = ground (arith, ==→ne b 0xff more) in
                let step = add-mul b 1 (256 ^ length key) in
                rw more (record {
                  len = ap suc same;
                  bytes = (below, ih.bytes);
                  counted = rw same (omega (arith, count, step));
                })
          ])
    ]

pub number_lt : (key : Bytes) → All (λ x. x < 256) key → number key < 256 ^ length key
unfolding number
number_lt [] a = omega arith
number_lt (b ∷ key) (h, a) =
    let ih = number_lt key a in
    let power = pow-suc 256 (length key) in
    let most : b * 256 ^ length key ≤ 255 * 256 ^ length key = grind arith in
    omega (arith, ih, power, most)

-- The entries have the keys from `v` on, of 32 bytes each, with the values of the slots.
abbrev pub Follows : (Bytes → Bytes) → Item → ℕ → List (Bytes × Bytes) → Type 0
Follows sha t v [] = Unit {0}
Follows sha t v (e ∷ es) =
    (number e.0 ≡ v)
    × (length e.0 ≡ 32)
    × (e.1 ≡ read_storage_slot sha t e.0)
    × Follows sha t (suc v) es

module _ (sha : Bytes → Bytes) (t : Item) where
  -- The range goes on as long as it was asked to, or to the last key.
  record Ranges (more : ℕ) (key : Bytes) (es : List (Bytes × Bytes)) : Type 0 where
    pub follows : Follows sha t (number key) es
    pub whole : number key + more < 256 ^ 32 → length es ≡ suc more
    pub cut : 256 ^ 32 ≤ number key + more → length es + number key ≡ 256 ^ 32

  range_from-Ranges :
      (more : ℕ) (key : Bytes)
      → length key ≡ 32
      → All (λ x. x < 256) key
      → Ranges more key (range_from sha more t key)
  unfolding range_from
  range_from-Ranges zero key size a =
      let top : number key < 256 ^ 32 = subst (λ n. number key < 256 ^ n) size (number_lt key a) in
      record {
        follows = (refl, size, refl, tt);
        whole = λ h. refl;
        cut = λ h. absurd (omega (arith, top, h));
      }
  range_from-Ranges (suc more) key size a =
      let n = uint256_increment-Next key a in
      let len = n.len in
      let ih = range_from-Ranges more (uint256_increment key).0 (len ∙ size) n.bytes in
      elim (Bool-cases (uint256_increment key).1) [
        | inl e ↦
            let count : number (uint256_increment key).0 + 0 ≡ number key + 1 =
              subst
                (λ c.
                  number (uint256_increment key).0 + (if c then 0 else 256 ^ length key)
                  ≡ number key + 1)
                e n.counted in
            let from : number (uint256_increment key).0 ≡ suc (number key) = omega (arith, count) in
            let on = ih.whole in
            let stop = ih.cut in
            rw e (record {
              follows = (
                refl,
                size,
                refl,
                subst (λ v. Follows sha t v (range_from sha more t (uint256_increment key).0)) from
                    ih.follows,
              );
              whole = λ h. ap suc (on (omega (arith, from, h)));
              cut = λ h. let rest = stop (omega (arith, from, h)) in omega (arith, rest, from);
            })
        | inr e ↦
            let count : number (uint256_increment key).0 + 256 ^ length key ≡ number key + 1 =
              subst
                (λ c.
                  number (uint256_increment key).0 + (if c then 0 else 256 ^ length key)
                  ≡ number key + 1)
                e n.counted in
            let top : number key < 256 ^ 32 =
              subst (λ n. number key < 256 ^ n) size (number_lt key a) in
            let full : number (uint256_increment key).0 + 256 ^ 32 ≡ number key + 1 =
              subst (λ n. number (uint256_increment key).0 + 256 ^ n ≡ number key + 1) size count in
            rw e (record {
              follows = (refl, size, refl, tt);
              whole = λ h. absurd (omega (arith, full, h));
              cut = λ h. omega (arith, full, top);
            })
      ]

  -- `get_range_entries` for a key of 32 bytes and a count that is not 0 returns entries whose keys have
  -- 32 bytes and count up by one from the key, each with the value of its slot: as many as the count
  -- if the keys do not overflow, and else those up to the last key.
  pub get_range_entries-Follows :
      (key : Bytes) (count : ℕ)
      → length key ≡ 32
      → All (λ x. x < 256) key
      → 0 < count
      → Follows sha t (number key) (get_range_entries sha t key count)
        × (number key + count ≤ 256 ^ 32 → length (get_range_entries sha t key count) ≡ count)
        × (256 ^ 32 < number key + count
            → length (get_range_entries sha t key count) + number key ≡ 256 ^ 32)
  unfolding get_range_entries
  get_range_entries-Follows key count size a pos =
      let asked : (count == 0) ≡ false = ground arith in
      let r = range_from-Ranges (count - 1) key size a in
      let on = r.whole in
      let stop = r.cut in
      rw (asked, size)
        (
          r.follows,
          (λ h. let all = on (omega (arith, h, pos)) in omega (arith, all, pos)),
          λ h. stop (omega (arith, h, pos)),
        )
