-- ===== src/Common/SpscQueue/Ring.antt =====
-- The part of the buffer that is in use (spsc_queue.h).
use regime_flow.Base.{
  get_or-set, ◌-◌, ◌==◌, ap, ◌++◌, if◌then◌else◌, ◌⊎◌, arith, set, ◌≡◌, get_or, length, ◌<◌, ◌+◌,
  List, ℕ, suc, zero, refl, ◌∷◌, [],
}
use regime_flow.Common.SpscQueue.{increment}

-- `n` steps on from `tail`, around the end of the buffer, is `head`.
abbrev pub Spans : ℕ → ℕ → ℕ → ℕ → Type 0
Spans capacity tail n head = (tail + n ≡ head) ⊎ (tail + n ≡ head + capacity)

pub increment_lem :
    (capacity v : ℕ)
    → v < capacity
    → increment capacity v ≡ (if suc v == capacity then 0 else suc v)
unfolding increment
increment_lem capacity v h = grind arith

-- The `n` items from `tail` on.
abbrev pub ring : {T : Type 0} → ℕ → T → List T → ℕ → ℕ → List T
ring capacity d b zero tail = []
ring capacity d b (suc n) tail = get_or b tail d ∷ ring capacity d b n (increment capacity tail)

-- The tail and the head move on by one.
pub shrink :
    (capacity n tail head : ℕ)
    → tail < capacity
    → head < capacity
    → 0 < n
    → Spans capacity tail n head
    → Spans capacity (increment capacity tail) (n - 1) head × (increment capacity tail < capacity)
shrink capacity n tail head t h p s = ground (arith, increment_lem capacity tail)

pub grow :
    (capacity n tail head : ℕ)
    → tail < capacity
    → head < capacity
    → suc n < capacity
    → Spans capacity tail n head
    → Spans capacity tail (suc n) (increment capacity head) × (increment capacity head < capacity)
grow capacity n tail head t h f s = ground (arith, increment_lem capacity head)

pub ring_first :
    {T : Type 0} (capacity n : ℕ) (d : T) (b : List T) (tail : ℕ)
    → 0 < n
    → ring capacity d b n tail
      ≡ get_or b tail d ∷ ring capacity d b (n - 1) (increment capacity tail)
ring_first capacity zero d b tail h = absurd (omega arith)
ring_first capacity (suc n) d b tail h = ground arith

module _ {T : Type 0} (capacity : ℕ) (d : T) where
  Spans-suc :
      (tail n head : ℕ)
      → tail < capacity
      → head < capacity
      → Spans capacity tail (suc n) head
      → Spans capacity (increment capacity tail) n head × (increment capacity tail < capacity)
  Spans-suc tail n head t h s = ground (arith, increment_lem capacity tail)

  -- One more item at the end.
  pub ring-suc :
      (b : List T) (n tail head : ℕ)
      → tail < capacity
      → head < capacity
      → Spans capacity tail n head
      → ring capacity d b (suc n) tail ≡ ring capacity d b n tail ++ get_or b head d ∷ []
  ring-suc b zero tail head t h s =
      let e : tail ≡ head = omega arith in ap (λ (k : ℕ). get_or b k d ∷ []) e
  ring-suc b (suc n) tail head t h s =
      let s' = Spans-suc tail n head t h s in
      ap (λ (l : List T). get_or b tail d ∷ l)
        (ring-suc b n (increment capacity tail) head s'.1 h s'.0)

  -- A write behind the last item leaves them alone.
  pub ring-set :
      (b : List T) (n tail head : ℕ) (v : T)
      → length b ≡ capacity
      → tail < capacity
      → head < capacity
      → n < capacity
      → Spans capacity tail n head
      → ring capacity d (set b head v) n tail ≡ ring capacity d b n tail
  ring-set b zero tail head v l t h f s = refl
  ring-set b (suc n) tail head v l t h f s =
      let s' = Spans-suc tail n head t h s in
      ground (
        arith,
        get_or-set b head tail v d,
        ring-set b n (increment capacity tail) head v l s'.1 h,
        s'.0,
      )

  pub length-ring : (b : List T) (n tail : ℕ) → length (ring capacity d b n tail) ≡ n
  length-ring b zero tail = refl
  length-ring b (suc n) tail = ap suc (length-ring b n (increment capacity tail))
