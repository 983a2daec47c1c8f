-- ===== src/Bits/Digits.antt =====
-- Byte arrays of a length, as in c_src/merkletree.hpp and c_src/nif.cpp.
use diode_server.Base.{ℕ, ◌<◌, ◌≡◌, All, length}
use diode_server.Base.Bytes.{Bytes}

-- A byte array of the length: every entry is below 256.
pub record IsArray (n : ℕ) (value : Bytes) : Type 0 where
  pub len : length value ≡ n
  pub bytes : All (λ x. x < 256) value
