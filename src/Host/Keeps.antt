-- ===== src/Host/Keeps.antt =====
-- What the calls of the EVM host keep (evm/host.cpp): the output is a row of whole packets, and the
-- written values fit into one.
use mathlib.Core.List.{append-nil}
use diode_server.Base.{
  ℕ, zero, suc, ◌+◌, ◌*◌, ◌^◌, ◌<◌, ◌≤◌, ◌≡◌, refl, ap, sym, subst, ◌∙◌, Bool, true, false, Option,
  none, some, List, [], ◌∷◌, ◌++◌, if◌then◌else◌, ◌==◌, ltb, length, take, drop, All, arith,
}
use diode_server.Base.Bytes.{Bytes}
use diode_server.Map.{Map, empty, map_set, size, resize, assign, get}
use diode_server.Map.Entries.{Holds, map_set-Holds}
use diode_server.Host.{Address, Bytes32, Slot, same_slot, Host, M, ◌>>=◌, fread, hash_slot}
use diode_server.Host.Storage.{reset, lift, fetch_storage, get_storage, send_updates, zeros}
use diode_server.Host.Server.{seed, preseed, read_updates}
use diode_server.Host.Packets.{pack, pack-append}
use diode_server.Host.Writes.{Writes, >>=-some, Writes-pure, Writes-fread, Writes-iread, Sends}
use diode_server.Host.Sent.{
  IsSlot, IsWord, updates-Sends, Writes-ask, Writes-lift, Writes-modify, Writes-set_cache,
  fetch_storage-Sends, Writes-set_complete_account, Writes-get_cache,
}

-- So many entries fit into a message 'su'.
abbrev pub limit : ℕ
limit = 51130563

-- The output is a row of whole packets, and the written values fit into one.
pub record IsHost (h : Host) : Type 0 where
  pub packets : List Bytes
  pub small : All (λ p. length p < 2 ^ 32) packets
  pub framed : h.output ≡ pack packets
  pub written : Holds IsSlot IsWord limit h.storage_write_cache

-- A step that returns keeps it so, and adds no written value.
abbrev pub Keeps : {A : Type 0} → M A → Type 0
Keeps {A} m =
    (h h' : Host) (a : A)
    → m h ≡ some (a, h')
    → IsHost h
    → IsHost h' × (size h'.storage_write_cache ≤ size h.storage_write_cache)

pub Keeps-bind :
    {A B : Type 0} (m : M A) (f : A → M B) → Keeps m → ((a : A) → Keeps (f a)) → Keeps (m >>= f)
Keeps-bind m f k l h h' b run i =
    let (a, h₁, first, second) = >>=-some m f h h' b run in
    let (i₁, less₁) = k h h₁ a first i in
    let (i₂, less₂) = l a h₁ h' b second i₁ in (i₂, omega (arith, less₁, less₂))

same_size :
    (h h' : Host)
    → h'.storage_write_cache ≡ h.storage_write_cache
    → size h'.storage_write_cache ≤ size h.storage_write_cache
same_size h h' e = let same = ap size e in omega (arith, same)

pub Writes-Keeps : {A : Type 0} (m : M A) → Writes [] m → Keeps m
Writes-Keeps m w h h' a run i =
    let (o, s) = w h h' a run in
    (
      record {
        packets = i.packets;
        small = i.small;
        framed = o ∙ append-nil h.output ∙ i.framed;
        written = subst (Holds IsSlot IsWord limit) (sym s) i.written;
      },
      same_size h h' s,
    )

All-append {ℓ κ} :
    {A : Type ℓ} (P : A → Type κ) (xs ys : List A) → All P xs → All P ys → All P (xs ++ ys)
All-append P [] ys a b = b
All-append P (x ∷ xs) ys (h, a) b = (h, All-append P xs ys a b)

pub Sends-Keeps : {A : Type 0} (n : ℕ) (m : M A) → n < 2 ^ 32 → Sends n m → Keeps m
Sends-Keeps n m few (bytes, e, w) h h' a run i =
    let (o, s) = w h h' a run in
    (
      record {
        packets = i.packets ++ bytes ∷ [];
        small =
            All-append (λ p. length p < 2 ^ 32) i.packets (bytes ∷ []) i.small (omega arith, tt);
        framed =
            o
            ∙ ap (λ out. out ++ pack (bytes ∷ [])) i.framed
            ∙ sym (pack-append i.packets (bytes ∷ []));
        written = subst (Holds IsSlot IsWord limit) (sym s) i.written;
      },
      same_size h h' s,
    )

pub reset-Keeps : Keeps reset
unfolding reset
reset-Keeps h h' a run i =
    let cleared : Host = record h {
      complete_accounts = empty;
      storage_cache = empty;
      storage_write_cache = empty;
    } in
    let same : cleared ≡ h' = cc in
    subst (λ g. IsHost g × (size g.storage_write_cache ≤ size h.storage_write_cache)) same
      (
        record {
          packets = i.packets;
          small = i.small;
          framed = i.framed;
          written = record { entries = tt; few = omega arith };
        },
        omega arith,
      )

pub send_updates-Keeps : Keeps send_updates
unfolding send_updates
send_updates-Keeps h h' a run i =
    let few = i.written.few in
    let small : 2 + size h.storage_write_cache * 84 < 2 ^ 32 = omega (arith, few) in
    Sends-Keeps (2 + size h.storage_write_cache * 84) _ small
      (updates-Sends h.storage_write_cache i.written.entries small) h h' a run i

-- The write of `set_storage`, with one entry more at most.
pub write-Keeps :
    (fuel : ℕ) (addr : Address) (key value : Bytes32) (h : Host) (m : Map Slot Bytes32)
    → IsSlot (addr, key)
    → IsWord value
    → size h.storage_write_cache < limit
    → map_set hash_slot same_slot zeros fuel h.storage_write_cache (addr, key) value ≡ some m
    → IsHost h
    → IsHost (record h { storage_write_cache = m }) × (size m ≤ size h.storage_write_cache + 1)
write-Keeps fuel addr key value h m k v room run i =
    let before : Holds IsSlot IsWord (size h.storage_write_cache) h.storage_write_cache = record {
      entries = i.written.entries;
      few = omega arith;
    } in
    let after =
      map_set-Holds IsSlot IsWord hash_slot same_slot zeros refl fuel (size h.storage_write_cache)
        h.storage_write_cache m (addr, key) value k v run before in
    let few = after.few in
    (
      record {
        packets = i.packets;
        small = i.small;
        framed = i.framed;
        written = record { entries = after.entries; few = omega (arith, few) };
      },
      omega (arith, few),
    )

pub choose : {A : Type 0} (c : Bool) (m n : M A) → Keeps m → Keeps n → Keeps (if c then m else n)
choose true m n k l = k
choose false m n k l = l

module _ (hash_address : Address → ℕ) (fuel : ℕ) where
  pub get_storage-Keeps :
      (addr : Address) (key : Bytes32)
      → IsSlot (addr, key)
      → Keeps (get_storage hash_address fuel addr key)
  unfolding get_storage
  get_storage-Keeps addr key k =
      Keeps-bind _ _ (Writes-Keeps _ (Writes-get_cache hash_address fuel addr key)) fetched
    where
      fetched : (cached : Option Bytes32) → Keeps (fetch_storage fuel addr key cached)
      fetched none = Sends-Keeps 54 _ (omega arith) (fetch_storage-Sends fuel addr key k)
      fetched (some value) = Writes-Keeps _ (unfold fetch_storage in Writes-pure value)

  seed-Keeps : (rounds : ℕ) (addr : Address) (buffer : Bytes) → Keeps (seed fuel rounds addr buffer)
  unfolding seed
  seed-Keeps zero addr buffer = Writes-Keeps _ (Writes-pure tt)
  seed-Keeps (suc rounds) addr buffer =
      Keeps-bind _ _
        (Writes-Keeps _ (Writes-set_cache fuel addr (take 32 buffer) (take 32 (drop 32 buffer))))
        (λ a. seed-Keeps rounds addr (drop 64 buffer))

  read_or_fail : (c : Bool) (n : ℕ) → Writes [] (if c then fread n else lift none)
  read_or_fail true n = Writes-fread n
  read_or_fail false n = Writes-lift none

  preseed-Keeps : (count : ℕ) (addr : Address) → Keeps (preseed hash_address fuel count addr)
  unfolding preseed
  preseed-Keeps count addr =
      Keeps-bind _ _ (Writes-Keeps _ (read_or_fail (ltb count (2 ^ 31)) (count * 2 * 32)))
        (λ buffer. Keeps-bind _ _ (Writes-Keeps _ Writes-ask) (λ h.
          Keeps-bind _ _
            (Writes-Keeps _ (
              Writes-lift
                (resize (assign (get hash_slot same_slot zeros fuel)) h.storage_cache count)))
            (λ m.
              Keeps-bind _ _
                (Writes-Keeps _
                  (Writes-modify (λ h. record h { storage_cache = m }) (λ h. (refl, refl))))
                (λ a.
                  Keeps-bind _ _ (seed-Keeps count addr buffer)
                    (λ a. Writes-Keeps _ (Writes-set_complete_account hash_address fuel addr))))))

  pub read_updates-Keeps : Keeps (read_updates hash_address fuel)
  unfolding read_updates
  read_updates-Keeps = Keeps-bind _ _ reset-Keeps (λ a.
      Keeps-bind _ _ (Writes-Keeps _ (Writes-iread 4)) (λ count.
        Keeps-bind _ _ (Writes-Keeps _ (Writes-fread 20)) (λ addr.
          choose (count == 0xffffffff) _ _ (Writes-Keeps _ (Writes-pure tt))
            (preseed-Keeps count addr))))
