-- ===== src/Host/Calls.antt =====
-- The calls of the EVM host that write to its caches or run other code (evm/host.cpp): what they keep.
use diode_server.Base.{
  ℕ, ◌+◌, ◌%◌, ◌^◌, ◌<◌, ◌≤◌, ◌≡◌, refl, ap, sym, subst, ◌∙◌, Bool, true, Option, none, some, [],
  ◌∷◌, if◌then◌else◌, ◌==◌, length, arith,
}
use diode_server.Base.Bytes.{Bytes}
use diode_server.Map.{map_set, size}
use diode_server.Host.{Address, Bytes32, same_slot, Host, M, pure, hash_slot}
use diode_server.Host.Storage.{
  lift, modify, set_cache, set_written, get_cache, fetch_storage, get_storage, set_storage, zeros,
}
use diode_server.Host.Server.{
  Message, getc_from, getc, read_updates, after_success, call, create_context,
}
use diode_server.Host.Writes.{
  Writes, >>=-some, Writes-pure, Writes-fread, Writes-nread, Writes-iread,
}
use diode_server.Host.Sent.{
  IsSlot, IsWord, IsMessage, send_call-Sends, Writes-modify, Writes-set_cache, fetch_storage-Sends,
  Writes-get_cache,
}
use diode_server.Host.Keeps.{
  limit, IsHost, Keeps, Keeps-bind, Writes-Keeps, Sends-Keeps, reset-Keeps, send_updates-Keeps,
  write-Keeps, get_storage-Keeps, read_updates-Keeps, choose,
}

getc_from-Writes : (bytes : Bytes) → Writes [] (getc_from bytes)
unfolding getc_from
getc_from-Writes [] h h' a run =
    let same : record h { at_end = true } ≡ h' = cc in
    Writes-modify (λ h. record h { at_end = true }) (λ h. (refl, refl)) h h' tt
      (ap (λ (g : Host). some (tt, g)) same)
getc_from-Writes (c ∷ rest) h h' a run =
    let same : record h { input = rest } ≡ h' = cc in
    Writes-modify (λ h. record h { input = rest }) (λ h. (refl, refl)) h h' tt
      (ap (λ (g : Host). some (tt, g)) same)

pub getc-Writes : Writes [] getc
unfolding getc
getc-Writes h h' a run = getc_from-Writes h.input h h' a run

lift-some :
    {A : Type 0} (o : Option A) (h h₁ : Host) (a : A)
    → lift o h ≡ some (a, h₁)
    → (o ≡ some a) × (h ≡ h₁)
lift-some none h h₁ a run = cc
lift-some (some b) h h₁ a run = (cc, cc)

set_written-IsHost :
    (fuel : ℕ) (addr : Address) (key value : Bytes32) (h h' : Host) (a : Unit {0})
    → IsSlot (addr, key)
    → IsWord value
    → size h.storage_write_cache < limit
    → set_written fuel addr key value h ≡ some (a, h')
    → IsHost h
    → IsHost h' × (size h'.storage_write_cache ≤ size h.storage_write_cache + 1)
unfolding set_written
set_written-IsHost fuel addr key value h h' a k v room run i =
    let o = map_set hash_slot same_slot zeros fuel h.storage_write_cache (addr, key) value in
    let (m, h₁, put, done) =
      >>=-some (lift o) (λ m. modify (λ h. record h { storage_write_cache = m })) h h' a run in
    let (found, same) = lift-some o h h₁ m put in
    let kept = write-Keeps fuel addr key value h m k v room found i in
    let end : record h₁ { storage_write_cache = m } ≡ h' = cc in
    subst (λ g. IsHost g × (size g.storage_write_cache ≤ size h.storage_write_cache + 1))
      (ap (λ (g : Host). record g { storage_write_cache = m }) same ∙ end) kept

module _ (hash_address : Address → ℕ) (fuel : ℕ) where
  get_storage-same :
      (addr : Address) (key : Bytes32) (h h' : Host) (value : Bytes32)
      → IsSlot (addr, key)
      → get_storage hash_address fuel addr key h ≡ some (value, h')
      → h'.storage_write_cache ≡ h.storage_write_cache
  unfolding get_storage
  get_storage-same addr key h h' value k run =
      let (cached, h₁, first, second) =
        >>=-some (get_cache hash_address fuel addr key) (fetch_storage fuel addr key) h h' value
          run in
      fetched cached h₁ second ∙ (Writes-get_cache hash_address fuel addr key h h₁ cached first).1
    where
      fetched :
          (cached : Option Bytes32) (h₁ : Host)
          → fetch_storage fuel addr key cached h₁ ≡ some (value, h')
          → h'.storage_write_cache ≡ h₁.storage_write_cache
      fetched none h₁ run = ((fetch_storage-Sends fuel addr key k).2 h₁ h' value run).1
      fetched (some v) h₁ run = unfold fetch_storage in (Writes-pure v h₁ h' value run).1

  pub set_storage-IsHost :
      (addr : Address) (key value : Bytes32) (h h' : Host) (changed : Bool)
      → IsSlot (addr, key)
      → IsWord value
      → size h.storage_write_cache < limit
      → set_storage hash_address fuel addr key value h ≡ some (changed, h')
      → IsHost h
      → IsHost h' × (size h'.storage_write_cache ≤ size h.storage_write_cache + 1)
  unfolding set_storage
  set_storage-IsHost addr key value h h' changed k v room run i =
      let (prev, h₁, first, rest) =
        >>=-some (get_storage hash_address fuel addr key) _ h h' changed run in
      let i₁ = (get_storage-Keeps hash_address fuel addr key k h h₁ prev first i).0 in
      let same₁ = get_storage-same addr key h h₁ prev k first in
      let (a, h₂, cached, rest₂) = >>=-some (set_cache fuel addr key value) _ h₁ h' changed rest in
      let i₂ = (Writes-Keeps _ (Writes-set_cache fuel addr key value) h₁ h₂ a cached i₁).0 in
      let same₂ = (Writes-set_cache fuel addr key value h₁ h₂ a cached).1 in
      let (a, h₃, written, rest₃) =
        >>=-some (set_written fuel addr key value) _ h₂ h' changed rest₂ in
      let room₂ : size h₂.storage_write_cache < limit =
        subst (λ m. size m < limit) (sym (same₂ ∙ same₁)) room in
      let (i₃, one) = set_written-IsHost fuel addr key value h₂ h₃ a k v room₂ written i₂ in
      let (i₄, none_more) = Writes-Keeps _ (Writes-pure _) h₃ h' changed rest₃ i₃ in
      let sizes : size h₂.storage_write_cache ≡ size h.storage_write_cache =
        ap size (same₂ ∙ same₁) in
      (i₄, omega (arith, one, none_more, sizes))

  after_success-Keeps : Keeps (after_success hash_address fuel)
  unfolding after_success
  after_success-Keeps =
      Keeps-bind _ _ (Writes-Keeps _ Writes-nread)
        (λ a. Keeps-bind _ _ (Writes-Keeps _ getc-Writes) letter)
    where
      letter :
          (c : Option ℕ)
          → Keeps (elim c as (λ x. M (Unit {0})) [
            | none ↦ pure tt
            | some l ↦ if l == 112 then read_updates hash_address fuel else pure tt
          ])
      letter none = Writes-Keeps _ (Writes-pure tt)
      letter (some l) =
          choose (l == 112) _ _ (read_updates-Keeps hash_address fuel)
            (Writes-Keeps _ (Writes-pure tt))

  pub call-Keeps : (msg : Message) → IsMessage msg → Keeps (call hash_address fuel msg)
  unfolding call
  call-Keeps msg i =
      let small = i.input_small in
      Keeps-bind _ _
        (Sends-Keeps (90 + length msg.input_data + 8 + 32) _ (omega (arith, small))
          (send_call-Sends msg i))
        (λ a. Keeps-bind _ _ send_updates-Keeps (λ a.
          Keeps-bind _ _ (Writes-Keeps _ Writes-nread) (λ a.
            Keeps-bind _ _ (Writes-Keeps _ (Writes-iread 8)) (λ gas_left.
              Keeps-bind _ _ (Writes-Keeps _ (Writes-iread 8)) (λ status.
                Keeps-bind _ _ (Writes-Keeps _ (Writes-iread 8)) (λ output_size.
                  Keeps-bind _ _ (Writes-Keeps _ (Writes-fread output_size)) (λ output.
                    Keeps-bind _ _ (Writes-Keeps _ (Writes-fread 20)) (λ create_address.
                      Keeps-bind _ _
                        (choose (status % 2 ^ 32 == 0) _ _ after_success-Keeps
                          (Writes-Keeps _ (Writes-pure tt)))
                        (λ a. Writes-Keeps _ (
                          Writes-pure (record {
                            gas_left = gas_left;
                            status_code = status % 2 ^ 32;
                            output_data = output;
                            create_address = create_address;
                          })))))))))))

pub create_context-Keeps : Keeps create_context
unfolding create_context
create_context-Keeps = Keeps-bind _ _ reset-Keeps (λ a.
    Keeps-bind _ _ (Writes-Keeps _ (Writes-fread 32)) (λ gas_price.
      Keeps-bind _ _ (Writes-Keeps _ (Writes-fread 20)) (λ origin.
        Keeps-bind _ _ (Writes-Keeps _ (Writes-fread 20)) (λ coinbase.
          Keeps-bind _ _ (Writes-Keeps _ (Writes-fread 8)) (λ number.
            Keeps-bind _ _ (Writes-Keeps _ (Writes-fread 8)) (λ timestamp.
              Keeps-bind _ _ (Writes-Keeps _ (Writes-fread 8)) (λ gas_limit.
                Keeps-bind _ _ (Writes-Keeps _ (Writes-fread 32)) (λ difficulty.
                  Keeps-bind _ _ (Writes-Keeps _ (Writes-fread 32)) (λ chain_id. Writes-Keeps _ (
                    Writes-modify
                      (λ h. record h {
                        tx_context = record {
                          tx_gas_price = gas_price;
                          tx_origin = origin;
                          block_coinbase = coinbase;
                          block_number = number;
                          block_timestamp = timestamp;
                          block_gas_limit = gas_limit;
                          block_difficulty = difficulty;
                          chain_id = chain_id;
                        };
                      })
                      (λ h. (refl, refl))))))))))))
