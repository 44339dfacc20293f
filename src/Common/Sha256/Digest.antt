-- ===== src/Common/Sha256/Digest.antt =====
-- The digest of a whole message (src/common/sha256.cpp), against a definition with no buffer: the message is
-- padded to a multiple of 64 bytes, and the blocks of 64 bytes are compressed in turn.
use regime_flow.Base.{
  All, ◌+◌, length-drop, ◌/◌, length-replicate, take-append-drop, length-take, ◌^◌, length-append,
  ap, ◌∙◌, ◌<◌, arith, sym, subst, replicate, ◌*◌, ◌∷◌, ◌%◌, ◌≡◌, length, ◌≤◌, drop, ◌++◌, ◌-◌,
  take, List, ℕ, suc, zero, [], refl,
}
use regime_flow.Common.Sha256.Compress.{transform}
use regime_flow.Common.Sha256.{
  u64, Sha256, new_sha256, initial_state, flush_full, update, digest, pad_len, padding,
  length_bytes, output,
}
use regime_flow.Common.Sha256.Stream.{
  feed_all, feed_all-append, bits-feed_all, length-feed_all, take-cons_chunk, update-feed_all,
  update-append, count_bits,
}

-- The zeros between the bit of one and the length, for a message of `n` bytes.
abbrev pub padding_zeros : ℕ → ℕ
padding_zeros n = (119 - n % 64) % 64

abbrev pub zeros : ℕ → List ℕ
zeros n = replicate n 0

abbrev pub padded : List ℕ → List ℕ
padded m = m ++ ((0x80 ∷ zeros (padding_zeros (length m))) ++ length_bytes (length m * 8))

-- `n` blocks, one after the other.
unfoldable pub hash_blocks : ℕ → List ℕ → List ℕ → List ℕ
hash_blocks zero m s = s
hash_blocks (suc n) m s = hash_blocks n (drop 64 m) (transform (take 64 m) s)

abbrev at_rest : ℕ → List ℕ → Sha256
at_rest n s = record { bit_len = n; state = s; buffer = [] }

feed-block :
    (n b : ℕ) (bs s : List ℕ)
    → 64 ≤ length (b ∷ bs)
    → feed_all (take 64 (b ∷ bs)) (at_rest n s) ≡ at_rest n (transform (take 64 (b ∷ bs)) s)
unfolding flush_full
feed-block n b bs s h =
    sym (take-cons_chunk 64 b bs (at_rest n s) (omega arith) h (omega arith))
    ∙ ground (arith, length-take 64 (b ∷ bs) h)

feed-blocks :
    (k n : ℕ) (bs s : List ℕ)
    → length bs ≡ 64 * k
    → feed_all bs (at_rest n s) ≡ at_rest n (hash_blocks k bs s)
unfolding hash_blocks
feed-blocks zero n [] s h = unfold feed_all in refl
feed-blocks zero n (b ∷ bs) s h = absurd (omega (arith, h))
feed-blocks (suc k) n [] s h = absurd (omega (arith, h))
feed-blocks (suc k) n (b ∷ bs) s h =
    ap (λ l. feed_all l (at_rest n s)) (sym (take-append-drop 64 (b ∷ bs)))
    ∙ feed_all-append (take 64 (b ∷ bs)) (drop 64 (b ∷ bs)) (at_rest n s)
    ∙ ap (feed_all (drop 64 (b ∷ bs))) (feed-block n b bs s (omega (arith, h)))
    ∙ feed-blocks k n (drop 64 (b ∷ bs)) (transform (take 64 (b ∷ bs)) s)
        (omega (arith, length-drop 64 (b ∷ bs), h))

take-replicate : (k n : ℕ) → k ≤ n → take k (zeros n) ≡ zeros k
unfolding take
take-replicate zero n h = refl
take-replicate (suc k) zero h = absurd (omega arith)
take-replicate (suc k) (suc n) h = ap (λ (l : List ℕ). 0 ∷ l) (take-replicate k n (omega arith))

-- What `digest` puts behind the message is the bit of one and the zeros of the definition.
pad_lem : (l n : ℕ) → l ≡ n % 64 → take (pad_len l) padding ≡ 0x80 ∷ zeros (padding_zeros n)
pad_lem l n e =
    let k : pad_len l ≡ suc (padding_zeros n) = unfold pad_len in ground (arith, e) in
    ap (λ i. take i padding) k
    ∙ unfold take in
      ap (λ (x : List ℕ). 0x80 ∷ x) (take-replicate (padding_zeros n) 63 (omega arith))

length-padded : (m : List ℕ) → length (padded m) % 64 ≡ 0
length-padded m = omega (
  arith,
  length-append m ((0x80 ∷ zeros (padding_zeros (length m))) ++ length_bytes (length m * 8)),
  length-append (0x80 ∷ zeros (padding_zeros (length m))) (length_bytes (length m * 8)),
  length-replicate {A = ℕ} (padding_zeros (length m)) 0,
)

-- What the hasher has after a message shorter than 2 ^ 61 bytes, its padding and its length.
digest-update :
    (m : List ℕ)
    → length m * 8 < 2 ^ 64
    → digest (update m new_sha256) ≡ output (update (padded m) new_sha256).state
unfolding digest
digest-update m h =
    let s = update m new_sha256 in
    let fed = update-feed_all m new_sha256 (omega arith) in
    let zs = 0x80 ∷ zeros (padding_zeros (length m)) in
    let size : length s.buffer ≡ length m % 64 =
      ap (λ (x : Sha256). length x.buffer) fed
      ∙ omega (arith, length-feed_all m (count_bits m new_sha256) (omega arith)) in
    let bits : s.bit_len ≡ length m * 8 =
      ap (λ (x : Sha256). x.bit_len) fed
      ∙ bits-feed_all m (count_bits m new_sha256)
      ∙ omega (arith, h) in
    ap (λ l. output (update (length_bytes s.bit_len) (update l s)).state)
      (pad_lem (length s.buffer) (length m) size)
    ∙ ap (λ n. output (update (length_bytes n) (update zs s)).state) bits
    ∙ ap (λ (x : Sha256). output x.state)
        (update-append zs (length_bytes (length m * 8)) s (omega (arith, size))
          ∙ update-append m (zs ++ length_bytes (length m * 8)) new_sha256 (omega arith))

-- The number whose bytes these are, the highest first, behind the digits `n`.
abbrev pub big_endian : ℕ → List ℕ → ℕ
big_endian n [] = n
big_endian n (b ∷ bs) = big_endian (n * 256 + b) bs

-- The words of four bytes each, the highest first.
abbrev pub words_of : List ℕ → List ℕ
words_of (a ∷ b ∷ c ∷ d ∷ bytes) = big_endian 0 (a ∷ b ∷ c ∷ d ∷ []) ∷ words_of bytes
words_of _ = []

abbrev pub AreBytes : List ℕ → Type 0
AreBytes bytes = All (λ b. b < 256) bytes

abbrev pub AreWords : List ℕ → Type 0
AreWords words = All (λ w. w < 2 ^ 32) words

-- What is hashed for the message `m`: behind it the bit of one, less than 64 bytes of zeros, and in eight
-- bytes, the highest first, the number of its bits; as a whole, blocks of 64 bytes.
pub record IsPadded (m p : List ℕ) : Type 0 where
  pub zero_bytes : ℕ
  pub length_field : List ℕ
  pub parts : p ≡ m ++ ((0x80 ∷ zeros zero_bytes) ++ length_field)
  pub few_zeros : zero_bytes < 64
  pub length_size : length length_field ≡ 8
  pub length_value : big_endian 0 length_field ≡ length m * 8
  pub whole_blocks : length p % 64 ≡ 0

length_bytes-value : (n : ℕ) → n < 2 ^ 64 → big_endian 0 (length_bytes n) ≡ n
length_bytes-value n h = omega arith

padded-IsPadded : (m : List ℕ) → length m * 8 < 2 ^ 64 → IsPadded m (padded m)
padded-IsPadded m h = record {
  zero_bytes = padding_zeros (length m);
  length_field = length_bytes (length m * 8);
  parts = refl;
  few_zeros = omega arith;
  length_size = refl;
  length_value = length_bytes-value (length m * 8) h;
  whole_blocks = length-padded m;
}

output-words : (ws : List ℕ) → AreWords ws → (words_of (output ws) ≡ ws) × AreBytes (output ws)
unfolding output
output-words [] h = (refl, tt)
output-words (w ∷ ws) h =
    let rest = output-words ws h.1 in
    let word : big_endian 0 (w / 2 ^ 24 % 256 ∷ w / 2 ^ 16 % 256 ∷ w / 2 ^ 8 % 256 ∷ w % 256 ∷ [])
        ≡ w =
      omega (arith, h.0) in
    (cc, (omega arith, (omega arith, (omega arith, (omega arith, rest.1)))))

length-output : (ws : List ℕ) → length (output ws) ≡ 4 * length ws
unfolding output
length-output [] = refl
length-output (w ∷ ws) = omega (arith, length-output ws)

length-hash_blocks : (n : ℕ) (m s : List ℕ) → length s ≡ 8 → length (hash_blocks n m s) ≡ 8
unfolding hash_blocks transform
length-hash_blocks zero m s h = h
length-hash_blocks (suc n) m s h = length-hash_blocks n (drop 64 m) (transform (take 64 m) s) refl

transform-AreWords : (block s : List ℕ) → AreWords (transform block s)
unfolding transform
transform-AreWords block s = omega arith

hash_blocks-AreWords : (n : ℕ) (m s : List ℕ) → AreWords s → AreWords (hash_blocks n m s)
unfolding hash_blocks
hash_blocks-AreWords zero m s h = h
hash_blocks-AreWords (suc n) m s h =
    hash_blocks-AreWords n (drop 64 m) (transform (take 64 m) s) (transform-AreWords (take 64 m) s)

-- The digest of a message shorter than 2 ^ 61 bytes is thirty-two bytes, those of eight words, the highest
-- first: what `transform`, from the initial state on, makes of the blocks of the padded message, one after the
-- other. The padded message is whole blocks: the message, the bit of one, zeros, and the number of the
-- message's bits in eight bytes, the highest first.
pub digest_lem :
    (m : List ℕ)
    → length m * 8 < 2 ^ 64
    → IsPadded m (padded m)
      × (words_of (digest (update m new_sha256))
          ≡ hash_blocks (length (padded m) / 64) (padded m) initial_state)
      × AreBytes (digest (update m new_sha256))
      × (length (digest (update m new_sha256)) ≡ 32)
digest_lem m h =
    let p = padded m in
    let k = length p / 64 in
    let state = hash_blocks k p initial_state in
    let words = output-words state (hash_blocks-AreWords k p initial_state (omega arith)) in
    let same : digest (update m new_sha256) ≡ output state =
      digest-update m h
      ∙ ap (λ (x : Sha256). output x.state)
          (update-feed_all p new_sha256 (omega arith)
            ∙ feed-blocks k (u64 (0 + length p * 8)) p initial_state
                (omega (arith, length-padded m))) in
    (
      padded-IsPadded m h,
      ap words_of same ∙ words.0,
      subst AreBytes (sym same) words.1,
      ap length same
          ∙ omega (arith, length-output state, length-hash_blocks k p initial_state refl),
    )
