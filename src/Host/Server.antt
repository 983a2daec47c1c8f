-- ===== src/Host/Server.antt =====
-- The nested calls of the EVM host, the updates that it is sent, and the main loop of the process
-- (evm/host.cpp, evm/main.cpp). The interpreter is a parameter: it runs a message on the code and
-- calls the host.
use diode_server.Base.{
  ℕ, zero, suc, ◌+◌, ◌*◌, ◌%◌, ◌^◌, Bool, true, false, ◌||◌, Option, none, some, [], ◌∷◌, ltb, ◌==◌,
  if◌then◌else◌, length, take, drop, replicate,
}
use diode_server.Base.Bytes.{Bytes}
use diode_server.Map.{empty, resize, assign, get}
use diode_server.Host.{
  Address, Bytes32, same_slot, le_word, hash_slot, Host, M, ◌>>=◌, ◌>>◌, pure, fread, fwrite, nread,
  nwrite, iread, code,
}
use diode_server.Host.Storage.{
  zeros, reset, ask, lift, modify, set_complete_account, set_cache, send_updates,
}

-- `evmc_message`
pub record Message : Type 0 where
  pub kind : ℕ
  pub sender : Address
  pub destination : Address
  pub value : Bytes32
  pub input_data : Bytes
  pub gas : ℕ
  pub depth : ℕ
  pub create2_salt : Bytes32

-- `evmc_result`
pub record Outcome : Type 0 where
  pub gas_left : ℕ
  pub status_code : ℕ
  pub output_data : Bytes
  pub create_address : Address

-- `getc(stdin)`, with `none` for `EOF`
unfoldable pub getc_from : Bytes → M (Option ℕ)
getc_from [] h = some (none, record h { at_end = true })
getc_from (c ∷ rest) h = some (some c, record h { input = rest })

unfoldable pub getc : M (Option ℕ)
unfolding getc_from
getc h = getc_from h.input h

-- `Host::call`: the message that it sends
unfoldable pub send_call : Message → M (Unit {0})
unfolding nwrite fwrite le_word
send_call msg = do
  nwrite (2 + 8 + 20 + 20 + 32 + 8 + length msg.input_data + 8 + 32)
  fwrite (code b'c' b'a')
  fwrite (le_word 8 msg.kind)
  fwrite msg.sender
  fwrite msg.destination
  fwrite msg.value
  fwrite (le_word 8 (length msg.input_data))
  fwrite msg.input_data
  fwrite (le_word 8 msg.gas)
  fwrite msg.create2_salt

-- The message 'ok' of the main loop
unfoldable pub send_result : Outcome → M (Unit {0})
unfolding nwrite fwrite le_word
send_result ret = do
  nwrite (2 + 8 + 8 + 8 + length ret.output_data)
  fwrite (code b'o' b'k')
  fwrite (le_word 8 ret.gas_left)
  fwrite (le_word 8 ret.status_code)
  fwrite (le_word 8 (length ret.output_data))
  fwrite ret.output_data

-- `Host()`, with the input that will come
abbrev pub initial : Bytes → Host
initial input = record {
  complete_accounts = empty;
  storage_cache = empty;
  storage_write_cache = empty;
  tx_context = record {
    tx_gas_price = zeros;
    tx_origin = replicate 20 0;
    block_coinbase = replicate 20 0;
    block_number = replicate 8 0;
    block_timestamp = replicate 8 0;
    block_gas_limit = replicate 8 0;
    block_difficulty = zeros;
    chain_id = zeros;
  };
  input = input;
  at_end = false;
  output = [];
}

-- The message 'c' of the main loop
unfoldable pub create_context : M (Unit {0})
unfolding reset fread
create_context = do
  reset
  gas_price ← fread 32
  origin ← fread 20
  coinbase ← fread 20
  number ← fread 8
  timestamp ← fread 8
  gas_limit ← fread 8
  difficulty ← fread 32
  chain_id ← fread 32
  modify (λ h. record h {
    tx_context = record {
      tx_gas_price = gas_price;
      tx_origin = origin;
      block_coinbase = coinbase;
      block_number = number;
      block_timestamp = timestamp;
      block_gas_limit = gas_limit;
      block_difficulty = difficulty;
      chain_id = chain_id;
    };
  })

module _ (execute : Message → Bytes → M Outcome) where
  -- The message 'r' of the main loop
  unfoldable pub run_context : M (Unit {0})
  unfolding fread iread send_updates send_result
  run_context = do
    sender ← fread 20
    destination ← fread 20
    value ← fread 32
    input_size ← iread 8
    input ← fread input_size
    gas ← iread 8
    depth ← iread 4
    code_size ← iread 8
    contract ← fread code_size
    ret ←
        execute
          (record {
            kind = 0;
            sender = sender;
            destination = destination;
            value = value;
            input_data = input;
            gas = gas;
            depth = depth;
            create2_salt = zeros;
          })
          contract
    send_updates
    send_result ret

module _ (fuel : ℕ) where
  -- The loop of `read_updates` over the buffer, with the rounds left
  unfoldable pub seed : ℕ → Address → Bytes → M (Unit {0})
  unfolding set_cache
  seed zero address buffer = pure tt
  seed (suc rounds) address buffer = do
    set_cache fuel address (take 32 buffer) (take 32 (drop 32 buffer))
    seed rounds address (drop 64 buffer)

module _ (hash_address : Address → ℕ) (fuel : ℕ) where
  -- `Host::read_updates` for an account with `count` entries. From 2^31 entries `count * 2` wraps and
  -- the loop leaves the buffer; a message has no room for so many.
  unfoldable pub preseed : ℕ → Address → M (Unit {0})
  unfolding seed fread resize assign get set_complete_account
  preseed count address = do
    buffer ← if ltb count (2 ^ 31) then fread (count * 2 * 32) else lift none
    h ← ask
    m ← lift (resize (assign (get hash_slot same_slot zeros fuel)) h.storage_cache count)
    modify (λ h. record h { storage_cache = m })
    seed fuel count address buffer
    set_complete_account hash_address fuel address

  -- `Host::read_updates`
  unfoldable pub read_updates : M (Unit {0})
  unfolding reset iread fread preseed
  read_updates = do
    reset
    count ← iread 4
    address ← fread 20
    if count == 0xffffffff then pure tt else preseed count address

  -- What `call` reads behind a success: a message of updates, or another of which it takes one byte
  unfoldable pub after_success : M (Unit {0})
  unfolding nread getc read_updates
  after_success = do
    nread
    c ← getc
    elim c [ none ↦ pure tt | some letter ↦ if letter == b'p' then read_updates else pure tt ]

  -- `Host::call`: the state of the storage is sent along, and updates may come back
  unfoldable pub call : Message → M Outcome
  unfolding send_call send_updates nread iread fread after_success
  call msg = do
    send_call msg
    send_updates
    nread
    gas_left ← iread 8
    status ← iread 8
    output_size ← iread 8
    output ← fread output_size
    create_address ← fread 20
    if status % 2 ^ 32 == 0 then after_success else pure tt
    pure (record {
      gas_left = gas_left;
      status_code = status % 2 ^ 32;
      output_data = output;
      create_address = create_address;
    })

  module _ (execute : Message → Bytes → M Outcome) where
    -- The body of the main loop, with the command read: whether to go on. A `char` of the byte 0xFF is
    -- `EOF`.
    unfoldable pub serve : Option ℕ → M Bool
    unfolding create_context read_updates run_context
    serve none = pure false
    serve (some cmd) =
        if cmd == b'c'
        then (do create_context; pure true)
        else if cmd == b'p'
        then (do read_updates; pure true)
        else if cmd == b'r'
        then (do run_context execute; pure true)
        else if cmd == b'q' || cmd == 0xFF
        then pure false
        else lift none

    -- `main`, with fuel for the messages
    unfoldable pub main : ℕ → M (Unit {0})
    unfolding nread getc serve
    main zero = lift none
    main (suc rounds) =
        let more = main rounds in
        let body : M (Unit {0}) = (do
          nread
          cmd ← getc
          run ← serve cmd
          if run then more else pure tt) in
        do h ← ask; if h.at_end then pure tt else body
