-- ===== src/Host/Sent.antt =====
-- What the calls of the EVM host with a state or a payload write (evm/host.cpp, evm/main.cpp).
use mathlib.Core.List.{append-nil}
use diode_server.Base.{
  ℕ, zero, suc, ◌+◌, ◌*◌, ◌^◌, ◌<◌, ◌≡◌, refl, ap, sym, ◌∙◌, Bool, true, false, Option, none, some,
  List, [], ◌∷◌, ◌++◌, if◌then◌else◌, length, All, length-append, arith,
}
use diode_server.Base.Bytes.{Bytes, bin_eq}
use diode_server.Map.{Map, map_set, read, size}
use diode_server.Host.{
  Address, Bytes32, Slot, same_slot, Host, ◌>>◌, fwrite, nwrite, le_word, code, hash_slot,
  write_all, emit_log,
}
use diode_server.Host.Storage.{
  ask, lift, modify, complete_account, set_complete_account, set_cache, cached_or_zero, get_cache,
  read_entries, read_storage, fetch_storage, write_entries, zeros,
}
use diode_server.Host.Server.{Message, Outcome, send_call, send_result}
use diode_server.Host.Writes.{
  Writes, Writes-bind, Writes-pure, Writes-fwrite, Writes-fread, Writes-iread, Writes-step,
  Writes-reply, Sends, Sends-lem, length-le_word,
}

abbrev joined : List Bytes → Bytes
joined [] = []
joined (bytes ∷ rest) = bytes ++ joined rest

Writes-write_all : (topics : List Bytes) → Writes (joined topics) (write_all topics)
unfolding write_all
Writes-write_all [] = Writes-pure tt
Writes-write_all (topic ∷ topics) = Writes-step topic (joined topics) _ (Writes-write_all topics)

length-joined :
    (topics : List Bytes)
    → All (λ t. length t ≡ 32) topics
    → length (joined topics) ≡ length topics * 32
length-joined [] a = refl
length-joined (t ∷ topics) (h, a) =
    omega (arith, h, length-append t (joined topics), length-joined topics a)

pub emit_log-Sends :
    (addr : Address) (bytes : Bytes) (topics : List Bytes32)
    → length addr ≡ 20
    → All (λ t. length t ≡ 32) topics
    → 38 + length bytes + length topics * 32 < 2 ^ 32
    → Sends (2 + 20 + 8 + length bytes + 8 + length topics * 32) (emit_log addr bytes topics)
unfolding emit_log
emit_log-Sends addr bytes topics size a small =
    let count = le_word 8 (length topics) ++ joined topics in
    let text = bytes ++ count in
    let long = le_word 8 (length bytes) ++ text in
    Sends-lem (2 + 20 + 8 + length bytes + 8 + length topics * 32)
      (code b'l' b'o' ++ (addr ++ long)) _
      (omega (
        arith,
        size,
        length-append addr long,
        length-append (le_word 8 (length bytes)) text,
        length-append bytes count,
        length-append (le_word 8 (length topics)) (joined topics),
        length-le_word 8 (length bytes),
        length-le_word 8 (length topics),
        length-joined topics a,
      ))
      (omega arith)
      (Writes-step (code b'l' b'o') (addr ++ long) _ (
        Writes-step addr long _ (
          Writes-step (le_word 8 (length bytes)) text _ (
            Writes-step bytes count _ (
              Writes-step (le_word 8 (length topics)) (joined topics) _
                (Writes-write_all topics))))))

-- An entry of the storage as the messages carry it.
abbrev pub IsSlot : Slot → Type 0
IsSlot s = (length s.0 ≡ 20) × (length s.1 ≡ 32)

abbrev pub IsWord : Bytes32 → Type 0
IsWord v = length v ≡ 32

abbrev flat : List (Slot × Bytes32) → Bytes
flat [] = []
flat (((addr, key), value) ∷ entries) = addr ++ (key ++ (value ++ flat entries))

Writes-write_entries :
    (entries : List (Slot × Bytes32)) → Writes (flat entries) (write_entries entries)
unfolding write_entries
Writes-write_entries [] = Writes-pure tt
Writes-write_entries (((addr, key), value) ∷ entries) =
    Writes-step addr (key ++ (value ++ flat entries)) _ (
      Writes-step key (value ++ flat entries) _
        (Writes-step value (flat entries) _ (Writes-write_entries entries)))

length-flat :
    (entries : List (Slot × Bytes32))
    → All (λ e. IsSlot e.0 × IsWord e.1) entries
    → length (flat entries) ≡ length entries * 84
length-flat [] a = refl
length-flat (((addr, key), value) ∷ entries) (((p, q), r), a) = omega (
  arith,
  p,
  q,
  r,
  length-append addr (key ++ (value ++ flat entries)),
  length-append key (value ++ flat entries),
  length-append value (flat entries),
  length-flat entries a,
)

-- The message 'su' for a cache of written values.
pub updates-Sends :
    (m : Map Slot Bytes32)
    → All (λ e. IsSlot e.0 × IsWord e.1) m.list
    → 2 + size m * 84 < 2 ^ 32
    → Sends
        (2 + size m * 84)
        (nwrite (2 + size m * 84) >> (fwrite (code b's' b'u') >> write_entries m.list))
updates-Sends m a small =
    Sends-lem (2 + size m * 84) (code b's' b'u' ++ flat m.list) _
      (omega (arith, length-flat m.list a)) small
      (Writes-step (code b's' b'u') (flat m.list) _ (Writes-write_entries m.list))

pub send_result-Sends :
    (ret : Outcome)
    → 26 + length ret.output_data < 2 ^ 32
    → Sends (26 + length ret.output_data) (send_result ret)
unfolding send_result
send_result-Sends ret small =
    let long = le_word 8 (length ret.output_data) ++ ret.output_data in
    let status = le_word 8 ret.status_code ++ long in
    Sends-lem (26 + length ret.output_data) (code b'o' b'k' ++ (le_word 8 ret.gas_left ++ status)) _
      (omega (
        arith,
        length-append (le_word 8 ret.gas_left) status,
        length-append (le_word 8 ret.status_code) long,
        length-append (le_word 8 (length ret.output_data)) ret.output_data,
        length-le_word 8 ret.gas_left,
        length-le_word 8 ret.status_code,
        length-le_word 8 (length ret.output_data),
      ))
      small
      (Writes-step (code b'o' b'k') (le_word 8 ret.gas_left ++ status) _ (
        Writes-step (le_word 8 ret.gas_left) status _ (
          Writes-step (le_word 8 ret.status_code) long _ (
            Writes-step (le_word 8 (length ret.output_data)) ret.output_data _
              (Writes-fwrite ret.output_data)))))

-- A message of a call that fits the wire.
pub record IsMessage (msg : Message) : Type 0 where
  pub sender_size : length msg.sender ≡ 20
  pub destination_size : length msg.destination ≡ 20
  pub value_size : length msg.value ≡ 32
  pub salt_size : length msg.create2_salt ≡ 32
  pub input_small : 130 + length msg.input_data < 2 ^ 32

pub send_call-Sends :
    (msg : Message) → IsMessage msg → Sends (90 + length msg.input_data + 8 + 32) (send_call msg)
unfolding send_call
send_call-Sends msg i =
    let t₇ = le_word 8 msg.gas ++ msg.create2_salt in
    let t₆ = msg.input_data ++ t₇ in
    let t₅ = le_word 8 (length msg.input_data) ++ t₆ in
    let t₄ = msg.value ++ t₅ in
    let t₃ = msg.destination ++ t₄ in
    let t₂ = msg.sender ++ t₃ in
    let t₁ = le_word 8 msg.kind ++ t₂ in
    let sender = i.sender_size in
    let destination = i.destination_size in
    let value = i.value_size in
    let salt = i.salt_size in
    let small = i.input_small in
    Sends-lem (90 + length msg.input_data + 8 + 32) (code b'c' b'a' ++ t₁) _
      (omega (
        arith,
        sender,
        destination,
        value,
        salt,
        length-append (le_word 8 msg.kind) t₂,
        length-append msg.sender t₃,
        length-append msg.destination t₄,
        length-append msg.value t₅,
        length-append (le_word 8 (length msg.input_data)) t₆,
        length-append msg.input_data t₇,
        length-append (le_word 8 msg.gas) msg.create2_salt,
        length-le_word 8 msg.kind,
        length-le_word 8 (length msg.input_data),
        length-le_word 8 msg.gas,
      ))
      (omega (arith, small))
      (Writes-step (code b'c' b'a') t₁ _ (
        Writes-step (le_word 8 msg.kind) t₂ _ (
          Writes-step msg.sender t₃ _ (
            Writes-step msg.destination t₄ _ (
              Writes-step msg.value t₅ _ (
                Writes-step (le_word 8 (length msg.input_data)) t₆ _ (
                  Writes-step msg.input_data t₇ _ (
                    Writes-step (le_word 8 msg.gas) msg.create2_salt _
                      (Writes-fwrite msg.create2_salt)))))))))

-- The caches of what was read are not part of the output.
pub Writes-ask : Writes [] ask
Writes-ask h h' a run =
    let same : h ≡ h' = cc in
    (
      ap (λ g. g.output) (sym same) ∙ sym (append-nil h.output),
      ap (λ g. g.storage_write_cache) (sym same),
    )

pub Writes-lift : {A : Type 0} (o : Option A) → Writes [] (lift o)
Writes-lift none h h' a run = cc
Writes-lift (some b) h h' a run =
    let same : h ≡ h' = cc in
    (
      ap (λ g. g.output) (sym same) ∙ sym (append-nil h.output),
      ap (λ g. g.storage_write_cache) (sym same),
    )

-- A change of what was read.
pub Writes-modify :
    (f : Host → Host)
    → ((h : Host) → ((f h).output ≡ h.output) × ((f h).storage_write_cache ≡ h.storage_write_cache))
    → Writes [] (modify f)
Writes-modify f keeps h h' a run =
    let same : f h ≡ h' = cc in
    let (o, s) = keeps h in
    (
      ap (λ g. g.output) (sym same) ∙ o ∙ sym (append-nil h.output),
      ap (λ g. g.storage_write_cache) (sym same) ∙ s,
    )

module _ (fuel : ℕ) where
  pub Writes-set_cache :
      (addr : Address) (key value : Bytes32) → Writes [] (set_cache fuel addr key value)
  unfolding set_cache
  Writes-set_cache addr key value = Writes-bind [] [] Writes-ask (λ h.
      Writes-bind [] []
        (Writes-lift (map_set hash_slot same_slot zeros fuel h.storage_cache (addr, key) value))
        (λ m. Writes-modify (λ h. record h { storage_cache = m }) (λ h. (refl, refl))))

  Writes-read_entries : (rounds : ℕ) (addr : Address) → Writes [] (read_entries fuel rounds addr)
  unfolding read_entries
  Writes-read_entries zero addr = Writes-pure tt
  Writes-read_entries (suc rounds) addr = Writes-bind [] [] (Writes-fread 32) (λ key.
      Writes-bind [] [] (Writes-fread 32) (λ value.
        Writes-bind [] [] (Writes-set_cache addr key value) (λ a. Writes-read_entries rounds addr)))

  Writes-read_storage : (count : ℕ) (addr : Address) → Writes [] (read_storage fuel count addr)
  unfolding read_storage
  Writes-read_storage zero addr = Writes-pure zeros
  Writes-read_storage (suc more) addr = Writes-bind [] [] (Writes-fread 32) (λ key.
      Writes-bind [] [] (Writes-fread 32) (λ value.
        Writes-bind [] [] (Writes-set_cache addr key value)
          (λ a. Writes-bind [] [] (Writes-read_entries more addr) (λ a. Writes-pure value))))

  -- The message 'gs'.
  pub fetch_storage-Sends :
      (addr : Address) (key : Bytes32)
      → IsSlot (addr, key)
      → Sends 54 (fetch_storage fuel addr key none)
  unfolding fetch_storage
  fetch_storage-Sends addr key (p, q) =
      Sends-lem 54 (code b'g' b's' ++ (addr ++ (key ++ []))) _
        (omega (arith, p, q, length-append addr (key ++ []), length-append key [])) (omega arith)
        (Writes-step (code b'g' b's') (addr ++ (key ++ [])) _ (
          Writes-step addr (key ++ []) _ (
            Writes-step key [] _ (
              Writes-reply _
                (Writes-bind [] [] (Writes-iread 1) (λ count. Writes-read_storage count addr))))))

module _ (hash_address : Address → ℕ) (fuel : ℕ) where
  Writes-complete_account : (addr : Address) → Writes [] (complete_account hash_address fuel addr)
  unfolding complete_account
  Writes-complete_account addr = Writes-bind [] [] Writes-ask (λ h.
      Writes-bind [] [] (Writes-lift (read hash_address bin_eq false fuel h.complete_accounts addr))
        (λ r.
          Writes-bind [] []
            (Writes-modify (λ h. record h { complete_accounts = r.0 }) (λ h. (refl, refl)))
            (λ a. Writes-pure (elim r.1 as (λ x. Bool) [ none ↦ false | some b ↦ b ]))))

  pub Writes-set_complete_account :
      (addr : Address) → Writes [] (set_complete_account hash_address fuel addr)
  unfolding set_complete_account
  Writes-set_complete_account addr = Writes-bind [] [] Writes-ask (λ h.
      Writes-bind [] []
        (Writes-lift (map_set hash_address bin_eq false fuel h.complete_accounts addr true))
        (λ m. Writes-modify (λ h. record h { complete_accounts = m }) (λ h. (refl, refl))))

  Writes-cached_or_zero :
      (addr : Address) (found : Option Bytes32)
      → Writes [] (cached_or_zero hash_address fuel addr found)
  unfolding cached_or_zero
  Writes-cached_or_zero addr none =
      Writes-bind [] [] (Writes-complete_account addr)
        (λ b. Writes-pure (if b then some zeros else none))
  Writes-cached_or_zero addr (some value) = Writes-pure (some value)

  pub Writes-get_cache :
      (addr : Address) (key : Bytes32) → Writes [] (get_cache hash_address fuel addr key)
  unfolding get_cache
  Writes-get_cache addr key = Writes-bind [] [] Writes-ask (λ h.
      Writes-bind [] []
        (Writes-lift (read hash_slot same_slot zeros fuel h.storage_cache (addr, key)))
        (λ r.
          Writes-bind [] []
            (Writes-modify (λ h. record h { storage_cache = r.0 }) (λ h. (refl, refl)))
            (λ a. Writes-cached_or_zero addr r.1)))
