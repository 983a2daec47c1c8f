-- ===== src/Host/Tests.antt =====
-- The theorems on the EVM host at a session and at a run of the main loop, with an interpreter that
-- stores a value.
use diode_server.Base.{
  ℕ, ◌+◌, ◌<◌, ◌^◌, ◌≡◌, refl, subst, ◌≤◌, Option, none, some, List, [], ◌∷◌, ◌++◌, replicate,
  length, arith,
}
use diode_server.Base.Bytes.{Bytes}
use diode_server.Host.{
  Address, Host, M, ◌>>=◌, pure, fread, fwrite, nread, nwrite, iread, be_word, le_word, le_value,
  hash_words, hash_slot, get_block_hash,
}
use diode_server.Base.Bytes.{bin_eq}
use diode_server.Map.{at, set_each, resize, assign, probe, settle, find, get, map_set, read, size}
use diode_server.Host.Sent.{IsSlot}
use diode_server.Host.Calls.{set_storage-IsHost}
use diode_server.Host.Storage.{
  write_entries, send_updates, zeros, set_cache, set_written, read_storage, fetch_storage,
  complete_account, cached_or_zero, get_cache, get_storage, set_storage,
}
use diode_server.Host.Server.{
  Message, Outcome, initial, getc_from, getc, send_result, run_context, serve, main,
}
use diode_server.Host.Packets.{unpack}
use diode_server.Host.Writes.{>>=-some}
use diode_server.Host.Session.{
  asked_block_hash, wrote_storage, Session, idle, next, Session-unpack, Executes, main-unpack,
}

program : Unit {0}
unfolding fread fwrite nread nwrite iread be_word le_word le_value get_block_hash write_entries
    send_updates getc_from getc send_result run_context serve main hash_words hash_slot at set_each
    resize assign probe settle find get map_set read set_cache set_written read_storage
    fetch_storage complete_account cached_or_zero get_cache get_storage set_storage bin_eq
program = tt

abbrev hash : Address → ℕ
hash addr = length addr

abbrev after : Host
after = record (initial []) { output = be_word 10 ++ (b'g' ∷ b'h' ∷ le_word 8 1) }

asked : get_block_hash 1 (initial (replicate 36 0)) ≡ some (zeros, after)
unfolding program
asked = refl

Session-unpack_example : (ps : List Bytes) × (unpack (length ps) after.output ≡ some ps)
Session-unpack_example =
    Session-unpack hash 9 (replicate 36 0) after (next idle (asked_block_hash 1 asked))

abbrev nothing : Outcome
nothing = record {
  gas_left = 5;
  status_code = 0;
  output_data = [];
  create_address = replicate 20 0;
}

abbrev stored_at : Address
stored_at = replicate 20 3

abbrev slot : Bytes
slot = replicate 32 4

-- Every run stores the same value, whatever the host holds.
abbrev execute : Message → Bytes → M Outcome
execute msg contract = set_storage hash 9 stored_at slot slot >>= λ changed. pure nothing

execute-Executes : Executes hash 9 1 execute
execute-Executes = record {
  by_calls = λ msg contract h h' ret room run.
      let (changed, h₁, first, done) =
        >>=-some (set_storage hash 9 stored_at slot slot) (λ changed. pure nothing) h h' ret run in
      let same : h₁ ≡ h' = cc in
      subst (Session hash 9 h) same
        (next idle (wrote_storage stored_at slot slot slot_IsSlot refl (omega arith) first));
  few = λ msg contract h h' ret i room run.
      let (changed, h₁, first, done) =
        >>=-some (set_storage hash 9 stored_at slot slot) (λ changed. pure nothing) h h' ret run in
      let same : h₁ ≡ h' = cc in
      subst (λ g. size g.storage_write_cache ≤ size h.storage_write_cache + 1) same
        (set_storage-IsHost hash 9 stored_at slot slot h h₁ changed slot_IsSlot refl (omega arith)
          first i).1;
  fits = λ msg contract h h' ret run.
      let (changed, h₁, first, done) =
        >>=-some (set_storage hash 9 stored_at slot slot) (λ changed. pure nothing) h h' ret run in
      let same : nothing ≡ ret = cc in
      subst (λ r. 26 + length r.output_data < 2 ^ 32) same (omega arith);
}
  where
    slot_IsSlot : IsSlot (stored_at, slot)
    slot_IsSlot = (refl, refl)

-- The messages 'r' and, behind the reply to the interpreter, 'q'.
abbrev script : Bytes
script =
    (replicate 4 0 ++ b'r' ∷ [])
    ++ (replicate 100 0 ++ (replicate 5 0 ++ (replicate 4 0 ++ b'q' ∷ [])))

abbrev host_of : Option (Unit {0} × Host) → Host
host_of none = initial []
host_of (some r) = r.1

final : Host
unfolding program
final = host_of (main hash 9 execute 2 (initial script))

main_run : main hash 9 execute 2 (initial script) ≡ some (tt, final)
unfolding program final
main_run = refl

-- The question for the slot, the written value and the result
sent : length final.output ≡ 4 + 54 + (4 + 86) + (4 + 26)
unfolding program final
sent = refl

main-unpack_example : (ps : List Bytes) × (unpack (length ps) final.output ≡ some ps)
main-unpack_example =
    main-unpack hash 9 1 execute execute-Executes 2 script final (omega arith) main_run
