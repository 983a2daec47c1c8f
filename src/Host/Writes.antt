-- ===== src/Host/Writes.antt =====
-- What each call of the EVM host writes (evm/host.cpp).
use mathlib.Core.List.{append_assoc, append-nil}
use diode_server.Base.{
  ℕ, zero, suc, ◌/◌, ◌%◌, ◌^◌, ◌<◌, ◌≡◌, refl, ap, sym, subst, ◌∙◌, Option, none, some, [], ◌∷◌,
  ◌++◌, ltb, ◌==◌, length, take, drop, length-append, arith, Bool-cases, inl, inr, if_true,
  if_false, eq_of_some,
}
use diode_server.Base.Bytes.{Bytes}
use diode_server.Host.{
  Address, Host, M, ◌>>=◌, ◌>>◌, pure, fread, fwrite, nread, nwrite, iread, be_word, le_word,
  le_value, code, get_block_hash, account_exists, get_balance, get_code_size, get_code_hash,
  copy_code, selfdestruct,
}
use diode_server.Host.Packets.{pack, pack_lem}

-- A step that returns has written `bytes`, and left the cache of written values alone.
abbrev pub Writes : {A : Type 0} → Bytes → M A → Type 0
Writes {A} bytes m =
    (h h' : Host) (a : A)
    → m h ≡ some (a, h')
    → (h'.output ≡ h.output ++ bytes) × (h'.storage_write_cache ≡ h.storage_write_cache)

module _ {A B : Type 0} where
  >>=-cases :
      (o : Option (A × Host)) (f : A → M B) (h h' : Host) (b : B)
      → ((λ g. o) >>= f) h ≡ some (b, h')
      → (a : A) × (h₁ : Host) × (o ≡ some (a, h₁)) × (f a h₁ ≡ some (b, h'))
  >>=-cases none f h h' b run = cc
  >>=-cases (some (a, h₁)) f h h' b run = (a, h₁, refl, run)

  -- The steps of a chain that returns.
  pub >>=-some :
      (m : M A) (f : A → M B) (h h' : Host) (b : B)
      → (m >>= f) h ≡ some (b, h')
      → (a : A) × (h₁ : Host) × (m h ≡ some (a, h₁)) × (f a h₁ ≡ some (b, h'))
  >>=-some m f h h' b run = >>=-cases (m h) f h h' b run

  pub Writes-bind :
      {m : M A} {f : A → M B} (bytes rest : Bytes)
      → Writes bytes m
      → ((a : A) → Writes rest (f a))
      → Writes (bytes ++ rest) (m >>= f)
  Writes-bind {m} {f} bytes rest w v h h' b run =
      let (a, h₁, first, second) = >>=-some m f h h' b run in
      let (o, s) = w h h₁ a first in
      let (o', s') = v a h₁ h' b second in
      (o' ∙ ap (λ r. r ++ rest) o ∙ append_assoc h.output bytes rest, s' ∙ s)

settled :
    {A : Type 0} (h h₁ h' : Host) (bytes : Bytes) (a b : A)
    → ◌≡◌ {A = Option (A × Host)} (some (a, h₁)) (some (b, h'))
    → h₁.output ≡ h.output ++ bytes
    → h₁.storage_write_cache ≡ h.storage_write_cache
    → (h'.output ≡ h.output ++ bytes) × (h'.storage_write_cache ≡ h.storage_write_cache)
settled h h₁ h' bytes a b run o s =
    let same : h₁ ≡ h' = ap (λ r. r.1) (eq_of_some run) in
    (ap (λ g. g.output) (sym same) ∙ o, ap (λ g. g.storage_write_cache) (sym same) ∙ s)

pub Writes-pure : {A : Type 0} (a : A) → Writes [] (pure a)
Writes-pure a h h' b run = settled h h h' [] a b run (sym (append-nil h.output)) refl

pub Writes-fwrite : (bytes : Bytes) → Writes bytes (fwrite bytes)
unfolding fwrite
Writes-fwrite bytes h h' b run =
    settled h (record h { output = h.output ++ bytes }) h' bytes tt b run refl refl

pub Writes-fread : (n : ℕ) → Writes [] (fread n)
unfolding fread
Writes-fread n h h' b run = elim (Bool-cases (ltb (length h.input) n)) [
  | inl e ↦ let stop = sym (if_true _ _ e) ∙ run in cc
  | inr e ↦
      settled h (record h { input = drop n h.input }) h' [] (take n h.input) b
        (sym (if_false _ _ e) ∙ run) (sym (append-nil h.output)) refl
]

pub Writes-nread : Writes [] nread
unfolding nread
Writes-nread = Writes-bind [] [] (Writes-fread 4) (λ a. Writes-pure tt)

pub Writes-iread : (n : ℕ) → Writes [] (iread n)
unfolding iread
Writes-iread n = Writes-bind [] [] (Writes-fread n) (λ a. Writes-pure (le_value a))

pub Writes-nwrite : (n : ℕ) → Writes (be_word (n % 2 ^ 32)) (nwrite n)
unfolding nwrite
Writes-nwrite n = Writes-fwrite (be_word (n % 2 ^ 32))

-- A message: its length, and what follows.
pub Writes-packet :
    {A : Type 0} (n : ℕ) (bytes : Bytes) (m : M A)
    → Writes bytes m
    → length bytes ≡ n
    → n < 2 ^ 32
    → Writes (pack (bytes ∷ [])) (nwrite n >> m)
Writes-packet {A} n bytes m w e h =
    subst (λ out. Writes {A = A} out (nwrite n >> m)) (pack_lem n bytes e h)
      (Writes-bind (be_word (n % 2 ^ 32)) bytes (Writes-nwrite n) (λ a. w))

pub length-le_word : (n value : ℕ) → length (le_word n value) ≡ n
unfolding le_word
length-le_word zero value = refl
length-le_word (suc n) value = ap suc (length-le_word n (value / 256))

-- One packet with a payload of `n` bytes.
abbrev pub Sends : {A : Type 0} → ℕ → M A → Type 0
Sends {A} n m = (bytes : Bytes) × (length bytes ≡ n) × Writes (pack (bytes ∷ [])) m

pub Sends-lem :
    {A : Type 0} (n : ℕ) (bytes : Bytes) (m : M A)
    → length bytes ≡ n
    → n < 2 ^ 32
    → Writes bytes m
    → Sends n (nwrite n >> m)
Sends-lem n bytes m e h w = (bytes, e, Writes-packet n bytes m w e h)

pub Writes-step :
    {A : Type 0} (bytes rest : Bytes) (m : M A)
    → Writes rest m
    → Writes (bytes ++ rest) (fwrite bytes >> m)
Writes-step bytes rest m w = Writes-bind bytes rest (Writes-fwrite bytes) (λ a. w)

-- A reply that is read.
pub Writes-reply : {A : Type 0} (m : M A) → Writes [] m → Writes [] (nread >> m)
Writes-reply m w = Writes-bind [] [] Writes-nread (λ a. w)

pub get_block_hash-Sends : (number : ℕ) → Sends 10 (get_block_hash number)
unfolding get_block_hash
get_block_hash-Sends number =
    Sends-lem 10 (code b'g' b'h' ++ (le_word 8 number ++ [])) _
      (omega (arith, length-le_word 8 number, length-append (le_word 8 number) [])) (omega arith)
      (Writes-step (code b'g' b'h') (le_word 8 number ++ []) _
        (Writes-step (le_word 8 number) [] _ (Writes-reply _ (Writes-fread 32))))

module _ (addr : Address) (size : length addr ≡ 20) where
  ask_account :
      {A : Type 0} (a b : ℕ) (m : M A)
      → Writes [] m
      → Sends 22 (nwrite 22 >> (fwrite (code a b) >> (fwrite addr >> m)))
  ask_account a b m w =
      Sends-lem 22 (code a b ++ (addr ++ [])) _ (omega (arith, size, length-append addr []))
        (omega arith) (Writes-step (code a b) (addr ++ []) _ (Writes-step addr [] m w))

  pub account_exists-Sends : Sends 22 (account_exists addr)
  unfolding account_exists
  account_exists-Sends =
      ask_account b'a' b'e' _
        (Writes-reply _ (Writes-bind [] [] (Writes-iread 8) (λ ret. Writes-pure (ret == 1))))

  pub get_balance-Sends : Sends 22 (get_balance addr)
  unfolding get_balance
  get_balance-Sends = ask_account b'g' b'b' _ (Writes-reply _ (Writes-fread 32))

  pub get_code_size-Sends : Sends 22 (get_code_size addr)
  unfolding get_code_size
  get_code_size-Sends = ask_account b'g' b'c' _ (Writes-reply _ (Writes-iread 8))

  pub get_code_hash-Sends : Sends 22 (get_code_hash addr)
  unfolding get_code_hash
  get_code_hash-Sends = ask_account b'g' b'd' _ (Writes-reply _ (Writes-fread 32))

  pub copy_code-Sends : (offset count : ℕ) → Sends 38 (copy_code addr offset count)
  unfolding copy_code
  copy_code-Sends offset count =
      let last = le_word 8 count ++ [] in
      let tail = le_word 8 offset ++ last in
      Sends-lem 38 (code b'c' b'c' ++ (addr ++ tail)) _
        (omega (
          arith,
          size,
          length-append addr tail,
          length-append (le_word 8 offset) last,
          length-append (le_word 8 count) [],
          length-le_word 8 offset,
          length-le_word 8 count,
        ))
        (omega arith)
        (Writes-step (code b'c' b'c') (addr ++ tail) _ (
          Writes-step addr tail _ (
            Writes-step (le_word 8 offset) last _ (
              Writes-step (le_word 8 count) [] _
                (Writes-reply _ (Writes-bind [] [] (Writes-iread 8) (λ ret. Writes-fread ret)))))))

  pub selfdestruct-Sends :
      (beneficiary : Address) → length beneficiary ≡ 20 → Sends 42 (selfdestruct addr beneficiary)
  unfolding selfdestruct
  selfdestruct-Sends beneficiary other =
      Sends-lem 42 (code b's' b'd' ++ (addr ++ beneficiary)) _
        (omega (arith, size, other, length-append addr beneficiary)) (omega arith)
        (Writes-step (code b's' b'd') (addr ++ beneficiary) _
          (Writes-step addr beneficiary _ (Writes-fwrite beneficiary)))
