-- ===== src/Common/Sha256/Compress.antt =====
-- `Sha256::transform` and the constants of src/common/sha256.cpp. Words are numbers below 2 ^ 32.
use Prim.Native.Nat.{bit_and, bit_or, bit_xor}
use regime_flow.Base.Word.{u32}
use regime_flow.Base.{ℕ, zero, suc, ◌+◌, ◌*◌, ◌-◌, ◌/◌, ◌^◌, List, [], ◌∷◌, ◌++◌, get_or}

-- `k`
abbrev pub round_constants : List ℕ
round_constants =
    0x428a2f98 ∷ 0x71374491 ∷ 0xb5c0fbcf ∷ 0xe9b5dba5 ∷ 0x3956c25b ∷ 0x59f111f1 ∷ 0x923f82a4
    ∷ 0xab1c5ed5 ∷ 0xd807aa98 ∷ 0x12835b01 ∷ 0x243185be ∷ 0x550c7dc3 ∷ 0x72be5d74 ∷ 0x80deb1fe
    ∷ 0x9bdc06a7 ∷ 0xc19bf174 ∷ 0xe49b69c1 ∷ 0xefbe4786 ∷ 0x0fc19dc6 ∷ 0x240ca1cc ∷ 0x2de92c6f
    ∷ 0x4a7484aa ∷ 0x5cb0a9dc ∷ 0x76f988da ∷ 0x983e5152 ∷ 0xa831c66d ∷ 0xb00327c8 ∷ 0xbf597fc7
    ∷ 0xc6e00bf3 ∷ 0xd5a79147 ∷ 0x06ca6351 ∷ 0x14292967 ∷ 0x27b70a85 ∷ 0x2e1b2138 ∷ 0x4d2c6dfc
    ∷ 0x53380d13 ∷ 0x650a7354 ∷ 0x766a0abb ∷ 0x81c2c92e ∷ 0x92722c85 ∷ 0xa2bfe8a1 ∷ 0xa81a664b
    ∷ 0xc24b8b70 ∷ 0xc76c51a3 ∷ 0xd192e819 ∷ 0xd6990624 ∷ 0xf40e3585 ∷ 0x106aa070 ∷ 0x19a4c116
    ∷ 0x1e376c08 ∷ 0x2748774c ∷ 0x34b0bcb5 ∷ 0x391c0cb3 ∷ 0x4ed8aa4a ∷ 0x5b9cca4f ∷ 0x682e6ff3
    ∷ 0x748f82ee ∷ 0x78a5636f ∷ 0x84c87814 ∷ 0x8cc70208 ∷ 0x90befffa ∷ 0xa4506ceb ∷ 0xbef9a3f7
    ∷ 0xc67178f2 ∷ []

unfoldable pub rotr : ℕ → ℕ → ℕ
rotr x n = bit_or (x / 2 ^ n) (u32 (x * 2 ^ (32 - n)))

abbrev pub xor3 : ℕ → ℕ → ℕ → ℕ
xor3 a b c = bit_xor (bit_xor a b) c

-- `w[0]` to `w[15]`: the bytes in fours, the highest first.
unfoldable pub load_words : List ℕ → List ℕ
load_words (a ∷ b ∷ c ∷ d ∷ bytes) =
    bit_or (bit_or (bit_or (a * 2 ^ 24) (b * 2 ^ 16)) (c * 2 ^ 8)) d ∷ load_words bytes
load_words _ = []

-- `w[i]`, of the words before it
unfoldable pub next_word : List ℕ → ℕ → ℕ
unfolding rotr
next_word w i =
    let w15 = get_or w (i - 15) 0 in
    let w2 = get_or w (i - 2) 0 in
    let s0 = xor3 (rotr w15 7) (rotr w15 18) (w15 / 2 ^ 3) in
    let s1 = xor3 (rotr w2 17) (rotr w2 19) (w2 / 2 ^ 10) in
    u32 (get_or w (i - 16) 0 + s0 + get_or w (i - 7) 0 + s1)

-- `k` more words from `w[i]` on
unfoldable pub expand : ℕ → ℕ → List ℕ → List ℕ
unfolding next_word
expand zero i w = w
expand (suc k) i w = expand k (suc i) (w ++ next_word w i ∷ [])

-- The variables `a` to `h`.
pub record Working : Type 0 where
  pub a : ℕ
  pub b : ℕ
  pub c : ℕ
  pub d : ℕ
  pub e : ℕ
  pub f : ℕ
  pub g : ℕ
  pub h : ℕ

-- `~e`, in 32 bits
abbrev pub bit_not : ℕ → ℕ
bit_not x = 2 ^ 32 - 1 - x

unfoldable pub round : ℕ → ℕ → Working → Working
unfolding rotr
round constant word v =
    let s1 = xor3 (rotr v.e 6) (rotr v.e 11) (rotr v.e 25) in
    let ch = bit_xor (bit_and v.e v.f) (bit_and (bit_not v.e) v.g) in
    let temp1 = u32 (v.h + s1 + ch + constant + word) in
    let s0 = xor3 (rotr v.a 2) (rotr v.a 13) (rotr v.a 22) in
    let maj = xor3 (bit_and v.a v.b) (bit_and v.a v.c) (bit_and v.b v.c) in
    let temp2 = u32 (s0 + maj) in
    record {
      a = u32 (temp1 + temp2);
      b = v.a;
      c = v.b;
      d = v.c;
      e = u32 (v.d + temp1);
      f = v.e;
      g = v.f;
      h = v.g;
    }

unfoldable pub rounds : List ℕ → List ℕ → Working → Working
unfolding round
rounds (k ∷ ks) (w ∷ ws) v = rounds ks ws (round k w v)
rounds _ _ v = v

unfoldable pub add_working : Working → List ℕ → List ℕ
add_working v s =
    u32 (get_or s 0 0 + v.a)
    ∷ u32 (get_or s 1 0 + v.b)
    ∷ u32 (get_or s 2 0 + v.c)
    ∷ u32 (get_or s 3 0 + v.d)
    ∷ u32 (get_or s 4 0 + v.e)
    ∷ u32 (get_or s 5 0 + v.f)
    ∷ u32 (get_or s 6 0 + v.g)
    ∷ u32 (get_or s 7 0 + v.h)
    ∷ []

unfoldable pub working_of : List ℕ → Working
working_of s = record {
  a = get_or s 0 0;
  b = get_or s 1 0;
  c = get_or s 2 0;
  d = get_or s 3 0;
  e = get_or s 4 0;
  f = get_or s 5 0;
  g = get_or s 6 0;
  h = get_or s 7 0;
}

unfoldable pub transform : List ℕ → List ℕ → List ℕ
unfolding load_words expand rounds add_working working_of
transform block state =
    let w = expand 48 16 (load_words block) in
    add_working (rounds round_constants w (working_of state)) state
