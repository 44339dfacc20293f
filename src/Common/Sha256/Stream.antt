-- ===== src/Common/Sha256/Stream.antt =====
-- The loop of `update` (src/common/sha256.cpp) takes the bytes as if they came one by one, so that it
-- does not matter how a message is cut.
use mathlib.Core.List.{append_assoc}
use regime_flow.Base.{
  take-append-drop, length-drop, ◌∙◌, drop, sym, ◌*◌, ◌-◌, length-take, ap, length-append, ◌%◌, ◌≤◌,
  ◌+◌, arith, ◌≡◌, ◌<◌, ◌++◌, ◌∷◌, take, length, List, ℕ, suc, zero, [], refl,
}
use regime_flow.Common.Sha256.{u64, Sha256, flush_full, append_bytes, update_loop, update, min}

-- One byte, as a call of `update` with this byte alone takes it.
unfoldable pub feed : ℕ → Sha256 → Sha256
feed b h = flush_full (append_bytes (b ∷ []) h)

unfoldable pub feed_all : List ℕ → Sha256 → Sha256
unfolding feed
feed_all [] h = h
feed_all (b ∷ bs) h = feed_all bs (feed b h)

pub feed_all-append :
    (xs ys : List ℕ) (h : Sha256) → feed_all (xs ++ ys) h ≡ feed_all ys (feed_all xs h)
unfolding feed_all
feed_all-append [] ys h = refl
feed_all-append (x ∷ xs) ys h = feed_all-append xs ys (feed x h)

-- There is room in the buffer.
abbrev pub HasRoom : Sha256 → Type 0
HasRoom h = length h.buffer < 64

pub length-feed :
    (b : ℕ) (h : Sha256) → HasRoom h → length (feed b h).buffer ≡ (length h.buffer + 1) % 64
unfolding feed flush_full
length-feed b h r = ground (arith, length-append h.buffer (b ∷ []))

pub length-feed_all :
    (bs : List ℕ) (h : Sha256)
    → HasRoom h
    → length (feed_all bs h).buffer ≡ (length h.buffer + length bs) % 64
unfolding feed_all
length-feed_all [] h r = omega arith
length-feed_all (b ∷ bs) h r =
    omega
      (arith, length-feed b h r, length-feed_all bs (feed b h) (omega (arith, length-feed b h r)))

pub HasRoom-feed_all : (bs : List ℕ) (h : Sha256) → HasRoom h → HasRoom (feed_all bs h)
HasRoom-feed_all bs h r = omega (arith, length-feed_all bs h r)

feed-short : (b : ℕ) (h : Sha256) → length h.buffer + 1 < 64 → feed b h ≡ append_bytes (b ∷ []) h
unfolding feed flush_full
feed-short b h r = ground (arith, length-append h.buffer (b ∷ []))

append_bytes-append :
    (xs ys : List ℕ) (h : Sha256) → append_bytes ys (append_bytes xs h) ≡ append_bytes (xs ++ ys) h
append_bytes-append xs ys h =
    ap (λ (l : List ℕ). record h { buffer = l }) (append_assoc h.buffer xs ys)

-- A chunk that fits into the buffer, byte by byte.
pub chunk_lem :
    (b : ℕ) (bs : List ℕ) (h : Sha256)
    → length h.buffer + length (b ∷ bs) ≤ 64
    → flush_full (append_bytes (b ∷ bs) h) ≡ feed_all (b ∷ bs) h
unfolding feed_all
chunk_lem b [] h r = refl
chunk_lem b (c ∷ bs) h r =
    let e = feed-short b h (omega (arith, r)) in
    ap flush_full (sym (append_bytes-append (b ∷ []) (c ∷ bs) h))
    ∙ chunk_lem c bs (append_bytes (b ∷ []) h) (omega (arith, length-append h.buffer (b ∷ []), r))
    ∙ ap (feed_all (c ∷ bs)) (sym e)

pub take-cons_chunk :
    (n b : ℕ) (bs : List ℕ) (h : Sha256)
    → 0 < n
    → n ≤ length (b ∷ bs)
    → length h.buffer + n ≤ 64
    → flush_full (append_bytes (take n (b ∷ bs)) h) ≡ feed_all (take n (b ∷ bs)) h
unfolding take
take-cons_chunk zero b bs h p q r = absurd (omega arith)
take-cons_chunk (suc n) b bs h p q r =
    chunk_lem b (take n bs) h (omega (arith, length-take n bs (omega (arith, q)), r))

-- With as much fuel as there are bytes the loop takes them all.
pub update_loop-feed_all :
    (k : ℕ) (bs : List ℕ) (h : Sha256)
    → length bs ≤ k
    → HasRoom h
    → update_loop k bs h ≡ feed_all bs h
unfolding update_loop
update_loop-feed_all zero [] h l r = unfold feed_all in refl
update_loop-feed_all zero (b ∷ bs) h l r = absurd (omega (arith, l))
update_loop-feed_all (suc k) [] h l r = unfold feed_all in refl
update_loop-feed_all (suc k) (b ∷ bs) h l r =
    let n = min (length (b ∷ bs)) (64 - length h.buffer) in
    let pos : 0 < n = ground (arith, r) in
    let most : n ≤ length (b ∷ bs) = ground arith in
    let fits : length h.buffer + n ≤ 64 = ground (arith, r) in
    let rest = drop n (b ∷ bs) in
    ap (update_loop k rest) (take-cons_chunk n b bs h pos most fits)
    ∙ update_loop-feed_all k rest (feed_all (take n (b ∷ bs)) h)
        (omega (arith, length-drop n (b ∷ bs), l, pos)) (HasRoom-feed_all (take n (b ∷ bs)) h r)
    ∙ sym (feed_all-append (take n (b ∷ bs)) rest h)
    ∙ ap (λ l. feed_all l h) (take-append-drop n (b ∷ bs))

abbrev pub count_bits : List ℕ → Sha256 → Sha256
count_bits bs h = record h { bit_len = u64 (h.bit_len + length bs * 8) }

pub update-feed_all :
    (bs : List ℕ) (h : Sha256) → HasRoom h → update bs h ≡ feed_all bs (count_bits bs h)
unfolding update
update-feed_all bs h r = update_loop-feed_all (length bs) bs (count_bits bs h) (omega arith) r

-- The count of bits plays no part in the feeding.
feed-bits :
    (b n : ℕ) (h : Sha256) → feed b (record h { bit_len = n }) ≡ record (feed b h) { bit_len = n }
unfolding feed flush_full
feed-bits b n h = ground arith

pub feed_all-bits :
    (bs : List ℕ) (n : ℕ) (h : Sha256)
    → feed_all bs (record h { bit_len = n }) ≡ record (feed_all bs h) { bit_len = n }
unfolding feed_all
feed_all-bits [] n h = refl
feed_all-bits (b ∷ bs) n h = ap (feed_all bs) (feed-bits b n h) ∙ feed_all-bits bs n (feed b h)

pub bits-feed_all : (bs : List ℕ) (h : Sha256) → (feed_all bs h).bit_len ≡ h.bit_len
bits-feed_all bs h = ap (λ (x : Sha256). x.bit_len) (feed_all-bits bs h.bit_len h)

counted :
    (xs ys : List ℕ) (h : Sha256)
    → count_bits ys (feed_all xs (count_bits xs h)) ≡ feed_all xs (count_bits (xs ++ ys) h)
counted xs ys h =
    let total : u64 ((feed_all xs (count_bits xs h)).bit_len + length ys * 8)
        ≡ u64 (h.bit_len + length (xs ++ ys) * 8) =
      omega (arith, bits-feed_all xs (count_bits xs h), length-append xs ys) in
    ap (λ n. record (feed_all xs (count_bits xs h)) { bit_len = n }) total
    ∙ ap (λ (x : Sha256). record x { bit_len = u64 (h.bit_len + length (xs ++ ys) * 8) })
        (feed_all-bits xs (u64 (h.bit_len + length xs * 8)) h)
    ∙ sym (feed_all-bits xs (u64 (h.bit_len + length (xs ++ ys) * 8)) h)

-- While there is room in the buffer, two updates are one with the bytes of both: how a message is cut into calls changes nothing, neither in
-- the digest's state nor in the bytes that wait nor in the count of bits.
pub update-append :
    (xs ys : List ℕ) (h : Sha256) → HasRoom h → update ys (update xs h) ≡ update (xs ++ ys) h
update-append xs ys h r =
    let once = update-feed_all xs h r in
    let full = HasRoom-feed_all xs (count_bits xs h) r in
    let both = feed_all xs (count_bits xs h) in
    ap (update ys) once
    ∙ update-feed_all ys both full
    ∙ ap (feed_all ys) (counted xs ys h)
    ∙ sym (feed_all-append xs ys (count_bits (xs ++ ys) h))
    ∙ sym (update-feed_all (xs ++ ys) h r)
