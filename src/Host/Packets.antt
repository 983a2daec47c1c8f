-- ===== src/Host/Packets.antt =====
-- The messages that the EVM host writes (evm/host.cpp): the output is always a row of whole packets,
-- each with its length in front.
use mathlib.Core.Option
use mathlib.Core.List.{append_assoc, append-nil}
use diode_server.Base.{
  ℕ, zero, suc, ◌+◌, ◌*◌, ◌/◌, ◌%◌, ◌^◌, ◌<◌, ◌≡◌, refl, ap, false, Option, none, some, List, [],
  ◌∷◌, ◌++◌, if◌then◌else◌, ltb, length, take, drop, All, length-append, arith,
}
use diode_server.Base.Bytes.{Bytes}
use diode_server.Host.{be_word}

-- A packet of the port: the length of the payload in four bytes, and the payload.
abbrev pub pack : List Bytes → Bytes
pack [] = []
pack (payload ∷ payloads) = be_word (length payload) ++ (payload ++ pack payloads)

-- The other side of the port: it takes a length and that many bytes, until nothing is left. The fuel
-- is for the packets.
unfoldable pub unpack : ℕ → Bytes → Option (List Bytes)
unpack fuel [] = some []
unpack zero (a ∷ bytes) = none
unpack (suc fuel) (a ∷ b ∷ c ∷ d ∷ bytes) =
    let size = ((a * 256 + b) * 256 + c) * 256 + d in
    let rest = unpack fuel (drop size bytes) in
    if ltb (length bytes) size then none else Option.map (λ ps. take size bytes ∷ ps) rest
unpack (suc fuel) (a ∷ bytes) = none

drop_prefix : (a b : Bytes) → drop (length a) (a ++ b) ≡ b
drop_prefix [] b = refl
drop_prefix (x ∷ a) b = drop_prefix a b

take_prefix : (a b : Bytes) → take (length a) (a ++ b) ≡ a
take_prefix [] b = refl
take_prefix (x ∷ a) b = ap (λ r. x ∷ r) (take_prefix a b)

-- Packets below 2^32 bytes are read as they were written.
pub unpack-pack :
    (ps : List Bytes) → All (λ p. length p < 2 ^ 32) ps → unpack (length ps) (pack ps) ≡ some ps
unfolding unpack be_word
unpack-pack [] a = refl
unpack-pack (p ∷ ps) (h, a) =
    let size : (((length p / 2 ^ 24 % 256) * 256 + (length p / 2 ^ 16 % 256)) * 256
              + (length p / 2 ^ 8 % 256))
            * 256
          + length p % 256
        ≡ length p =
      omega arith in
    let room : ltb (length (p ++ pack ps)) (length p) ≡ false =
      ground (arith, length-append p (pack ps)) in
    rw (size, room, drop_prefix p (pack ps), take_prefix p (pack ps), unpack-pack ps a)

-- A length in front makes a packet of what follows.
pub pack_lem :
    (n : ℕ) (bytes : Bytes)
    → length bytes ≡ n
    → n < 2 ^ 32
    → be_word (n % 2 ^ 32) ++ bytes ≡ pack (bytes ∷ [])
pack_lem n bytes e h =
    let wrap : n % 2 ^ 32 ≡ length bytes = omega arith in rw (wrap, append-nil bytes)

pub pack-append : (ps qs : List Bytes) → pack (ps ++ qs) ≡ pack ps ++ pack qs
unfolding be_word
pack-append [] qs = refl
pack-append (p ∷ ps) qs = rw (pack-append ps qs, append_assoc p (pack ps) (pack qs))
