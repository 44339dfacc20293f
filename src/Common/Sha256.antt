-- ===== src/Common/Sha256.antt =====
-- src/common/sha256.cpp and include/regimeflow/common/sha256.h.
--
-- The buffer is the list of the bytes in use, and `buffer_len_` is its length: `transform` reads it only
-- when all 64 are, so what is left of an earlier block is never read.
pub mod Compress
pub mod Stream
pub mod Digest
mod Tests
use regime_flow.Common.Sha256.Compress.{transform}
use regime_flow.Base.Word.{u64}
use regime_flow.Base.{
  ℕ, zero, suc, ◌+◌, ◌*◌, ◌-◌, ◌/◌, ◌%◌, ◌^◌, List, [], ◌∷◌, ◌++◌, length, take, drop, replicate,
  ltb, ◌==◌, if◌then◌else◌,
}

pub record Sha256 : Type 0 where
  pub bit_len : ℕ
  pub state : List ℕ
  pub buffer : List ℕ

abbrev pub initial_state : List ℕ
initial_state =
    0x6a09e667 ∷ 0xbb67ae85 ∷ 0x3c6ef372 ∷ 0xa54ff53a ∷ 0x510e527f ∷ 0x9b05688c ∷ 0x1f83d9ab
    ∷ 0x5be0cd19 ∷ []

-- `Sha256::Sha256`
abbrev pub new_sha256 : Sha256
new_sha256 = record { bit_len = 0; state = initial_state; buffer = [] }

abbrev pub min : ℕ → ℕ → ℕ
min a b = if ltb b a then b else a

-- `if (buffer_len_ == sizeof(buffer_)) { transform(buffer_); buffer_len_ = 0; }`
unfoldable pub flush_full : Sha256 → Sha256
flush_full h =
    if length h.buffer == 64
    then record h { state = transform h.buffer h.state; buffer = [] }
    else h

-- `memcpy` behind the bytes that are there
abbrev pub append_bytes : List ℕ → Sha256 → Sha256
append_bytes bytes h = record h { buffer = h.buffer ++ bytes }

-- The loop `while (len > 0)`. Each turn takes a byte at least, so `len` turns are enough.
unfoldable pub update_loop : ℕ → List ℕ → Sha256 → Sha256
unfolding flush_full take drop
update_loop zero bytes h = h
update_loop (suc k) [] h = h
update_loop (suc k) (b ∷ bs) h =
    let to_copy = min (length (b ∷ bs)) (64 - length h.buffer) in
    update_loop k (drop to_copy (b ∷ bs)) (flush_full (append_bytes (take to_copy (b ∷ bs)) h))

unfoldable pub update : List ℕ → Sha256 → Sha256
unfolding update_loop
update bytes h =
    update_loop (length bytes) bytes (record h { bit_len = u64 (h.bit_len + length bytes * 8) })

-- `uint8_t padding[64] = {0x80}`
abbrev pub padding : List ℕ
padding = 0x80 ∷ replicate 63 0

-- `length_bytes`, the highest byte first
abbrev pub length_bytes : ℕ → List ℕ
length_bytes n =
    n / 2 ^ 56 % 256
    ∷ n / 2 ^ 48 % 256
    ∷ n / 2 ^ 40 % 256
    ∷ n / 2 ^ 32 % 256
    ∷ n / 2 ^ 24 % 256
    ∷ n / 2 ^ 16 % 256
    ∷ n / 2 ^ 8 % 256
    ∷ n % 256
    ∷ []

-- The four bytes of each word, the highest first.
unfoldable pub output : List ℕ → List ℕ
output [] = []
output (w ∷ ws) = w / 2 ^ 24 % 256 ∷ w / 2 ^ 16 % 256 ∷ w / 2 ^ 8 % 256 ∷ w % 256 ∷ output ws

unfoldable pub pad_len : ℕ → ℕ
pad_len buffer_len = if ltb buffer_len 56 then 56 - buffer_len else 120 - buffer_len

unfoldable pub digest : Sha256 → List ℕ
unfolding update output pad_len take
digest h =
    let h1 = update (take (pad_len (length h.buffer)) padding) h in
    output (update (length_bytes h.bit_len) h1).state
