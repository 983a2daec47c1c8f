-- ===== src/Host/Storage.antt =====
-- The caches of the EVM host, the calls that use them, and the messages of the main loop
-- (evm/host.cpp, evm/main.cpp). The interpreter is a parameter, and so is the hash of an address,
-- which evmc defines.
use diode_server.Base.{
  ℕ, zero, suc, ◌+◌, ◌*◌, Bool, true, false, not, Option, none, some, List, [], ◌∷◌, if◌then◌else◌,
  replicate,
}
use diode_server.Base.Bytes.{bin_eq}
use diode_server.Map.{empty, map_set, read, size}
use diode_server.Host.{
  Address, Bytes32, Slot, same_slot, hash_slot, Host, M, ◌>>=◌, ◌>>◌, pure, fread, fwrite, nread,
  nwrite, iread, code,
}

abbrev pub zeros : Bytes32
zeros = replicate 32 0

-- `Host::reset`
unfoldable pub reset : M (Unit {0})
reset h =
    some (
      tt,
      record h { complete_accounts = empty; storage_cache = empty; storage_write_cache = empty },
    )

-- The state as a value.
abbrev pub ask : M Host
ask h = some (h, h)

-- A step on the `Map` of complete accounts that may fail.
abbrev pub lift : {A : Type 0} → Option A → M A
lift none h = none
lift (some a) h = some (a, h)

abbrev pub modify : (Host → Host) → M (Unit {0})
modify f h = some (tt, f h)

-- The entries of `send_updates`
unfoldable pub write_entries : List (Slot × Bytes32) → M (Unit {0})
unfolding fwrite
write_entries [] = pure tt
write_entries (((addr, key), value) ∷ entries) = do
  fwrite addr
  fwrite key
  fwrite value
  write_entries entries

-- `Host::send_updates`
unfoldable pub send_updates : M (Unit {0})
unfolding nwrite fwrite write_entries
send_updates = do
  h ← ask
  nwrite (2 + size h.storage_write_cache * (20 + 32 + 32))
  fwrite (code b's' b'u')
  write_entries h.storage_write_cache.list

module _ (fuel : ℕ) where
  -- `Host::set_cache`
  unfoldable pub set_cache : Address → Bytes32 → Bytes32 → M (Unit {0})
  unfolding map_set hash_slot
  set_cache addr key value = do
    h ← ask
    m ← lift (map_set hash_slot same_slot zeros fuel h.storage_cache (addr, key) value)
    modify (λ h. record h { storage_cache = m })

  -- `Host::set_storage`: the cache of the written values
  unfoldable pub set_written : Address → Bytes32 → Bytes32 → M (Unit {0})
  unfolding map_set hash_slot
  set_written addr key value = do
    h ← ask
    m ← lift (map_set hash_slot same_slot zeros fuel h.storage_write_cache (addr, key) value)
    modify (λ h. record h { storage_write_cache = m })

  -- The further entries of a reply to `get_storage`, with the number that is left
  unfoldable pub read_entries : ℕ → Address → M (Unit {0})
  unfolding fread set_cache
  read_entries zero addr = pure tt
  read_entries (suc rounds) addr = do
    entry_key ← fread 32
    entry_value ← fread 32
    set_cache addr entry_key entry_value
    read_entries rounds addr

  -- What the reply to `get_storage` holds for `count` entries
  unfoldable pub read_storage : ℕ → Address → M Bytes32
  unfolding fread set_cache read_entries
  read_storage zero addr = pure zeros
  read_storage (suc more) addr = do
    entry_key ← fread 32
    entry_value ← fread 32
    set_cache addr entry_key entry_value
    read_entries more addr
    pure entry_value

  -- `Host::get_storage` with what the cache has
  unfoldable pub fetch_storage : Address → Bytes32 → Option Bytes32 → M Bytes32
  unfolding nwrite fwrite nread iread read_storage
  fetch_storage addr key (some value) = pure value
  fetch_storage addr key none = do
    nwrite (2 + 20 + 32)
    fwrite (code b'g' b's')
    fwrite addr
    fwrite key
    nread
    count ← iread 1
    read_storage count addr

module _ (hash_address : Address → ℕ) (fuel : ℕ) where
  -- `Host::complete_account`
  unfoldable pub complete_account : Address → M Bool
  unfolding read
  complete_account addr = do
    h ← ask
    (m, found) ← lift (read hash_address bin_eq false fuel h.complete_accounts addr)
    modify (λ h. record h { complete_accounts = m })
    pure (elim found [ none ↦ false | some b ↦ b ])

  -- `Host::set_complete_account`
  unfoldable pub set_complete_account : Address → M (Unit {0})
  unfolding map_set
  set_complete_account addr = do
    h ← ask
    m ← lift (map_set hash_address bin_eq false fuel h.complete_accounts addr true)
    modify (λ h. record h { complete_accounts = m })

  -- `Host::get_cache` behind the lookup
  unfoldable pub cached_or_zero : Address → Option Bytes32 → M (Option Bytes32)
  unfolding complete_account
  cached_or_zero addr (some value) = pure (some value)
  cached_or_zero addr none = do
    complete ← complete_account addr
    pure (if complete then some zeros else none)

  -- `Host::get_cache`: the value, if it is there
  unfoldable pub get_cache : Address → Bytes32 → M (Option Bytes32)
  unfolding read hash_slot cached_or_zero
  get_cache addr key = do
    h ← ask
    (m, found) ← lift (read hash_slot same_slot zeros fuel h.storage_cache (addr, key))
    modify (λ h. record h { storage_cache = m })
    cached_or_zero addr found

  -- `Host::get_storage`
  unfoldable pub get_storage : Address → Bytes32 → M Bytes32
  unfolding get_cache fetch_storage
  get_storage addr key = do cached ← get_cache addr key; fetch_storage fuel addr key cached

  -- `Host::set_storage`: whether the value is another than before
  unfoldable pub set_storage : Address → Bytes32 → Bytes32 → M Bool
  unfolding get_storage set_cache set_written
  set_storage addr key value = do
    prev_value ← get_storage addr key
    set_cache fuel addr key value
    set_written fuel addr key value
    pure (not (bin_eq prev_value value))
