-- ===== src/Host/Session.antt =====
-- A session of the EVM host (evm/host.cpp, evm/main.cpp): any row of calls, as the interpreter makes
-- them, and the main loop around it.
use diode_server.Base.{
  ℕ, zero, suc, ◌+◌, ◌*◌, ◌^◌, ◌<◌, ◌≤◌, ◌≡◌, refl, if◌then◌else◌, ap, ◌∙◌, Bool, true, false, ◌||◌,
  Option, none, some, List, [], ◌==◌, length, All, arith,
}
use diode_server.Base.Bytes.{Bytes}
use diode_server.Map.{size}
use diode_server.Host.{
  nread, Address, Bytes32, Host, M, ◌>>=◌, ◌>>◌, pure, get_block_hash, account_exists, get_balance,
  get_code_size, get_code_hash, copy_code, selfdestruct, emit_log,
}
use diode_server.Host.Storage.{get_storage, set_storage, send_updates, zeros}
use diode_server.Host.Server.{
  Message, Outcome, send_result, read_updates, call, initial, create_context, run_context, serve,
  main, getc,
}
use diode_server.Host.Packets.{unpack, unpack-pack}
use diode_server.Host.Writes.{
  Writes, >>=-some, Writes-pure, Writes-fread, Writes-nread, Writes-iread, get_block_hash-Sends,
  account_exists-Sends, get_balance-Sends, get_code_size-Sends, get_code_hash-Sends,
  copy_code-Sends, selfdestruct-Sends,
}
use diode_server.Host.Sent.{
  IsSlot, IsWord, IsMessage, emit_log-Sends, send_result-Sends, Writes-lift,
}
use diode_server.Host.Keeps.{
  limit, IsHost, Keeps, Keeps-bind, Writes-Keeps, Sends-Keeps, send_updates-Keeps,
  get_storage-Keeps, read_updates-Keeps,
}
use diode_server.Host.Calls.{getc-Writes, set_storage-IsHost, call-Keeps, create_context-Keeps}

initial-IsHost : (input : Bytes) → IsHost (initial input)
initial-IsHost input = record {
  packets = [];
  small = tt;
  framed = refl;
  written = record { entries = tt; few = omega arith };
}

-- The other side reads the output of a host as packets.
IsHost-unpack : (h : Host) → IsHost h → (ps : List Bytes) × (unpack (length ps) h.output ≡ some ps)
IsHost-unpack h i =
    (i.packets, ap (unpack (length i.packets)) i.framed ∙ unpack-pack i.packets i.small)

module _ (hash_address : Address → ℕ) (fuel : ℕ) where
  -- One call of the host that returns, with addresses and words of their sizes.
  pub data Called : Host → Host → Type 0 where
    asked_exists :
        {h h' : Host} (addr : Address) {a : Bool}
        → length addr ≡ 20
        → account_exists addr h ≡ some (a, h')
        → Called h h'
    asked_storage :
        {h h' : Host} (addr : Address) (key : Bytes32) {a : Bytes32}
        → IsSlot (addr, key)
        → get_storage hash_address fuel addr key h ≡ some (a, h')
        → Called h h'
    wrote_storage :
        {h h' : Host} (addr : Address) (key value : Bytes32) {a : Bool}
        → IsSlot (addr, key)
        → IsWord value
        → size h.storage_write_cache < limit
        → set_storage hash_address fuel addr key value h ≡ some (a, h')
        → Called h h'
    asked_balance :
        {h h' : Host} (addr : Address) {a : Bytes32}
        → length addr ≡ 20
        → get_balance addr h ≡ some (a, h')
        → Called h h'
    asked_code_size :
        {h h' : Host} (addr : Address) {a : ℕ}
        → length addr ≡ 20
        → get_code_size addr h ≡ some (a, h')
        → Called h h'
    asked_code_hash :
        {h h' : Host} (addr : Address) {a : Bytes32}
        → length addr ≡ 20
        → get_code_hash addr h ≡ some (a, h')
        → Called h h'
    copied_code :
        {h h' : Host} (addr : Address) (offset count : ℕ) {a : Bytes}
        → length addr ≡ 20
        → copy_code addr offset count h ≡ some (a, h')
        → Called h h'
    destructed :
        {h h' : Host} (addr beneficiary : Address) {a : Unit {0}}
        → length addr ≡ 20
        → length beneficiary ≡ 20
        → selfdestruct addr beneficiary h ≡ some (a, h')
        → Called h h'
    called :
        {h h' : Host} (msg : Message) {a : Outcome}
        → IsMessage msg
        → call hash_address fuel msg h ≡ some (a, h')
        → Called h h'
    asked_block_hash :
        {h h' : Host} (number : ℕ) {a : Bytes32}
        → get_block_hash number h ≡ some (a, h')
        → Called h h'
    logged :
        {h h' : Host} (addr : Address) (bytes : Bytes) (topics : List Bytes32) {a : Unit {0}}
        → length addr ≡ 20
        → All (λ t. length t ≡ 32) topics
        → 38 + length bytes + length topics * 32 < 2 ^ 32
        → emit_log addr bytes topics h ≡ some (a, h')
        → Called h h'

  Called-IsHost : {h h' : Host} → Called h h' → IsHost h → IsHost h'
  Called-IsHost {h} {h'} (asked_exists addr {a} s run) i =
      (Sends-Keeps 22 _ (omega arith) (account_exists-Sends addr s) h h' a run i).0
  Called-IsHost {h} {h'} (asked_storage addr key {a} k run) i =
      (get_storage-Keeps hash_address fuel addr key k h h' a run i).0
  Called-IsHost {h} {h'} (wrote_storage addr key value {a} k v room run) i =
      (set_storage-IsHost hash_address fuel addr key value h h' a k v room run i).0
  Called-IsHost {h} {h'} (asked_balance addr {a} s run) i =
      (Sends-Keeps 22 _ (omega arith) (get_balance-Sends addr s) h h' a run i).0
  Called-IsHost {h} {h'} (asked_code_size addr {a} s run) i =
      (Sends-Keeps 22 _ (omega arith) (get_code_size-Sends addr s) h h' a run i).0
  Called-IsHost {h} {h'} (asked_code_hash addr {a} s run) i =
      (Sends-Keeps 22 _ (omega arith) (get_code_hash-Sends addr s) h h' a run i).0
  Called-IsHost {h} {h'} (copied_code addr offset count {a} s run) i =
      (Sends-Keeps 38 _ (omega arith) (copy_code-Sends addr s offset count) h h' a run i).0
  Called-IsHost {h} {h'} (destructed addr beneficiary {a} s t run) i =
      (Sends-Keeps 42 _ (omega arith) (selfdestruct-Sends addr s beneficiary t) h h' a run i).0
  Called-IsHost {h} {h'} (called msg {a} m run) i =
      (call-Keeps hash_address fuel msg m h h' a run i).0
  Called-IsHost {h} {h'} (asked_block_hash number {a} run) i =
      (Sends-Keeps 10 _ (omega arith) (get_block_hash-Sends number) h h' a run i).0
  Called-IsHost {h} {h'} (logged addr bytes topics {a} s t small run) i =
      (Sends-Keeps (2 + 20 + 8 + length bytes + 8 + length topics * 32) _ (omega arith)
        (emit_log-Sends addr bytes topics s t small) h h' a run i).0

  -- A row of calls.
  pub data Session : Host → Host → Type 0 where
    idle : {h : Host} → Session h h
    next : {h h₁ h₂ : Host} → Session h h₁ → Called h₁ h₂ → Session h h₂

  pub Session-IsHost : {h h' : Host} → Session h h' → IsHost h → IsHost h'
  Session-IsHost idle i = i
  Session-IsHost (next session step) i = Called-IsHost step (Session-IsHost session i)

  -- After any row of calls that a new host returns from, with addresses and words of their sizes, fewer
  -- written entries than fit into a message and payloads below its size, the other side reads the
  -- output as packets, each of the length that stands in front of it, and nothing is left over.
  pub Session-unpack :
      (input : Bytes) (h : Host)
      → Session (initial input) h
      → (ps : List Bytes) × (unpack (length ps) h.output ≡ some ps)
  Session-unpack input h session = IsHost-unpack h (Session-IsHost session (initial-IsHost input))

  -- The interpreter touches the host by calls only, with addresses and words of their sizes and
  -- payloads below the size of a message, it writes at most `stores` new entries a run where there is
  -- room for them, and its output fits into a message.
  pub record Executes (stores : ℕ) (execute : Message → Bytes → M Outcome) : Type 0 where
    pub by_calls :
        (msg : Message) (contract : Bytes) (h h' : Host) (ret : Outcome)
        → size h.storage_write_cache + stores ≤ limit
        → execute msg contract h ≡ some (ret, h')
        → Session h h'
    pub few :
        (msg : Message) (contract : Bytes) (h h' : Host) (ret : Outcome)
        → IsHost h
        → size h.storage_write_cache + stores ≤ limit
        → execute msg contract h ≡ some (ret, h')
        → size h'.storage_write_cache ≤ size h.storage_write_cache + stores
    pub fits :
        (msg : Message) (contract : Bytes) (h h' : Host) (ret : Outcome)
        → execute msg contract h ≡ some (ret, h')
        → 26 + length ret.output_data < 2 ^ 32

  module _ (stores : ℕ) where
    -- A step that returns keeps the host as it should be if there is room for `stores` new entries,
    -- and adds no more.
    Grows : {A : Type 0} → M A → Type 0
    Grows {A} m =
        (h h' : Host) (a : A)
        → m h ≡ some (a, h')
        → IsHost h
        → size h.storage_write_cache + stores ≤ limit
        → IsHost h' × (size h'.storage_write_cache ≤ size h.storage_write_cache + stores)

    Keeps-Grows : {A : Type 0} (m : M A) → Keeps m → Grows m
    unfolding Grows
    Keeps-Grows m k h h' a run i room = let (i', less) = k h h' a run i in (i', omega (arith, less))

    Grows-after :
        {A B : Type 0} (m : M A) (f : A → M B) → Keeps m → ((a : A) → Grows (f a)) → Grows (m >>= f)
    unfolding Grows
    Grows-after m f k l h h' b run i room =
        let (a, h₁, first, second) = >>=-some m f h h' b run in
        let (i₁, less₁) = k h h₁ a first i in
        let (i₂, less₂) = l a h₁ h' b second i₁ (omega (arith, less₁, room)) in
        (i₂, omega (arith, less₁, less₂))

    Grows-before :
        {A B : Type 0} (m : M A) (f : A → M B) → Grows m → ((a : A) → Keeps (f a)) → Grows (m >>= f)
    unfolding Grows
    Grows-before m f k l h h' b run i room =
        let (a, h₁, first, second) = >>=-some m f h h' b run in
        let (i₁, less₁) = k h h₁ a first i room in
        let (i₂, less₂) = l a h₁ h' b second i₁ in (i₂, omega (arith, less₁, less₂))

    choose_Grows :
        {A : Type 0} (c : Bool) (m n : M A) → Grows m → Grows n → Grows (if c then m else n)
    choose_Grows true m n k l = k
    choose_Grows false m n k l = l

    module _ (execute : Message → Bytes → M Outcome) (executes : Executes stores execute) where
      finish-Grows :
          (msg : Message) (contract : Bytes)
          → Grows (execute msg contract >>= λ ret. send_updates >> send_result ret)
      unfolding Grows
      finish-Grows msg contract h h' a run i room =
          let (ret, h₁, first, rest) =
            >>=-some (execute msg contract) (λ ret. send_updates >> send_result ret) h h' a run in
          let fits = executes.fits msg contract h h₁ ret first in
          let few = executes.few msg contract h h₁ ret i room first in
          let session = executes.by_calls msg contract h h₁ ret room first in
          let (i', less) =
            Keeps-bind send_updates (λ u. send_result ret) send_updates-Keeps
              (λ u.
                Sends-Keeps (26 + length ret.output_data) (send_result ret) fits
                  (send_result-Sends ret fits))
              h₁ h' a rest (Session-IsHost session i) in
          (i', omega (arith, less, few))

      run_context-Grows : Grows (run_context execute)
      unfolding run_context
      run_context-Grows = Grows-after _ _ (Writes-Keeps _ (Writes-fread 20)) (λ sender.
          Grows-after _ _ (Writes-Keeps _ (Writes-fread 20)) (λ destination.
            Grows-after _ _ (Writes-Keeps _ (Writes-fread 32)) (λ value.
              Grows-after _ _ (Writes-Keeps _ (Writes-iread 8)) (λ input_size.
                Grows-after _ _ (Writes-Keeps _ (Writes-fread input_size)) (λ input.
                  Grows-after _ _ (Writes-Keeps _ (Writes-iread 8)) (λ gas.
                    Grows-after _ _ (Writes-Keeps _ (Writes-iread 4)) (λ depth.
                      Grows-after _ _ (Writes-Keeps _ (Writes-iread 8)) (λ code_size.
                        Grows-after _ _ (Writes-Keeps _ (Writes-fread code_size)) (λ contract.
                          finish-Grows
                            (record {
                              kind = 0;
                              sender = sender;
                              destination = destination;
                              value = value;
                              input_data = input;
                              gas = gas;
                              depth = depth;
                              create2_salt = zeros;
                            })
                            contract)))))))))

      goes_on : (m : M (Unit {0})) → Grows m → Grows (m >> pure true)
      goes_on m k = Grows-before m _ k (λ a. Writes-Keeps _ (Writes-pure true))

      served : {A : Type 0} (m : M A) → Writes [] m → Grows m
      served m w = Keeps-Grows m (Writes-Keeps m w)

      serve-Grows : (cmd : Option ℕ) → Grows (serve hash_address fuel execute cmd)
      unfolding serve
      serve-Grows none = served _ (Writes-pure false)
      serve-Grows (some cmd) =
          choose_Grows (cmd == 99) _ _ (goes_on create_context (Keeps-Grows _ create_context-Keeps))
            (choose_Grows (cmd == 112) _ _
              (goes_on (read_updates hash_address fuel)
                (Keeps-Grows _ (read_updates-Keeps hash_address fuel)))
              (choose_Grows (cmd == 114) _ _ (goes_on (run_context execute) run_context-Grows) (
                choose_Grows (cmd == 113 || cmd == 255) _ _ (served _ (Writes-pure false))
                  (served _ (Writes-lift none)))))

      round-IsHost :
          (rounds : ℕ) (more : M (Unit {0})) (h h' : Host)
          → ((g : Host)
              → size g.storage_write_cache + rounds * stores ≤ limit
              → more g ≡ some (tt, h')
              → IsHost g
              → IsHost h')
          → size h.storage_write_cache + suc rounds * stores ≤ limit
          → IsHost h
          → (nread
                >> (getc >>= λ cmd.
                    serve hash_address fuel execute cmd >>= λ run. if run then more else pure tt))
              h
            ≡ some (tt, h')
          → IsHost h'
      unfolding Grows
      round-IsHost rounds more h h' goes room i run =
          let (a, h₁, first, rest₁) = >>=-some nread _ h h' tt run in
          let (i₁, less₁) = Writes-Keeps nread Writes-nread h h₁ a first i in
          let (cmd, h₂, second, rest₂) = >>=-some getc _ h₁ h' tt rest₁ in
          let (i₂, less₂) = Writes-Keeps getc getc-Writes h₁ h₂ cmd second i₁ in
          let (go, h₃, third, last) =
            >>=-some (serve hash_address fuel execute cmd) _ h₂ h' tt rest₂ in
          let (i₃, less₃) = serve-Grows cmd h₂ h₃ go third i₂ (omega (arith, less₁, less₂, room)) in
          on_answer go h₃ (omega (arith, less₁, less₂, less₃, room)) i₃ last
        where
          on_answer :
              (go : Bool) (h₃ : Host)
              → size h₃.storage_write_cache + rounds * stores ≤ limit
              → IsHost h₃
              → (if go then more else pure tt) h₃ ≡ some (tt, h')
              → IsHost h'
          on_answer true h₃ room i run = goes h₃ room run i
          on_answer false h₃ room i run = (Writes-Keeps _ (Writes-pure tt) h₃ h' tt run i).0

      main-IsHost :
          (rounds : ℕ) (h h' : Host)
          → size h.storage_write_cache + rounds * stores ≤ limit
          → main hash_address fuel execute rounds h ≡ some (tt, h')
          → IsHost h
          → IsHost h'
      unfolding main
      main-IsHost zero h h' room run i = cc
      main-IsHost (suc rounds) h h' room run i =
          by_end h.at_end
            (round-IsHost rounds (main hash_address fuel execute rounds) h h'
              (λ g. main-IsHost rounds g h') room i)
            run
        where
          body : M (Unit {0})
          body =
              nread
              >> (getc >>= λ cmd. serve hash_address fuel execute cmd >>= λ run.
                  if run then main hash_address fuel execute rounds else pure tt)

          by_end :
              (end : Bool)
              → (body h ≡ some (tt, h') → IsHost h')
              → (if end then pure tt else body) h ≡ some (tt, h')
              → IsHost h'
          by_end true goes run = (Writes-Keeps _ (Writes-pure tt) h h' tt run i).0
          by_end false goes run = goes run

      -- When the main loop returns within a number of rounds, the other side reads the whole output as
      -- packets, each of the length that stands in front of it, and nothing is left over. The
      -- interpreter touches the host by calls only, with addresses and words of their sizes and payloads
      -- below the size of a message, its output fits into a message, and a run adds at most so many
      -- written entries where there is room that those of all rounds fit into a message.
      pub main-unpack :
          (rounds : ℕ) (input : Bytes) (h : Host)
          → rounds * stores ≤ limit
          → main hash_address fuel execute rounds (initial input) ≡ some (tt, h)
          → (ps : List Bytes) × (unpack (length ps) h.output ≡ some ps)
      main-unpack rounds input h room run =
          IsHost-unpack h
            (main-IsHost rounds (initial input) h (omega arith) run (initial-IsHost input))
