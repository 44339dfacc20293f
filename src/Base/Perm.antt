-- ===== src/Base/Perm.antt =====
-- Predicates and lengths along the library's permutations.
use mathlib.Core.List.{Perm, Permᴰ, Mem, Memᴰ}
use regime_flow.Base.{sym, length, ◌∷◌, List, [], refl, ◌∙◌, suc, ap, subst, ◌≡◌, All}
use mathlib.Core.Logic.{∥∥₁_elim}
use mathlib.Core.HLevel.{×_prop}
use native.Mathlib.Nat.{ℕ_set}

module _ {ℓ κ} {A : Type ℓ} (P : A → Type κ) where
  All-prop : ((a : A) → IsProp (P a)) → (xs : List A) → IsProp (All P xs)
  All-prop c [] = hlevel
  All-prop c (x ∷ xs) = ×_prop (c x) (All-prop c xs)

  All-permᴰ : {xs ys : List A} → Permᴰ xs ys → All P xs → All P ys
  All-permᴰ Permᴰ.nil h = tt
  All-permᴰ (Permᴰ.cons e p) h = (subst P e h.0, All-permᴰ p h.1)
  All-permᴰ (Permᴰ.swap e f) h = (subst P f h.1.0, (subst P e h.0, h.1.1))
  All-permᴰ (Permᴰ.trans p q) h = All-permᴰ q (All-permᴰ p h)

  -- What holds of each element holds of each element of a permutation.
  pub All-perm : ((a : A) → IsProp (P a)) → {xs ys : List A} → Perm xs ys → All P xs → All P ys
  All-perm c {ys = ys} p h = ∥∥₁_elim p (All-prop c ys) (λ d. All-permᴰ d h)

module _ {ℓ} {A : Type ℓ} where
  length-permᴰ : {xs ys : List A} → Permᴰ xs ys → length xs ≡ length ys
  length-permᴰ Permᴰ.nil = refl
  length-permᴰ (Permᴰ.cons e p) = ap suc (length-permᴰ p)
  length-permᴰ (Permᴰ.swap e f) = refl
  length-permᴰ (Permᴰ.trans p q) = length-permᴰ p ∙ length-permᴰ q

  pub length-perm : {xs ys : List A} → Perm xs ys → length xs ≡ length ys
  length-perm {xs} {ys} p = ∥∥₁_elim p (ℕ_set (length xs) (length ys)) (λ d. length-permᴰ d)

module _ {ℓ κ} {A : Type ℓ} (P : A → Type κ) where
  All-memᴰ : {a : A} {xs : List A} → Memᴰ a xs → All P xs → P a
  All-memᴰ (Memᴰ.head e) h = subst P (sym e) h.0
  All-memᴰ (Memᴰ.tail m) h = All-memᴰ m h.1

  -- What holds of each element holds of a member.
  pub All-mem : {a : A} {xs : List A} → IsProp (P a) → Mem a xs → All P xs → P a
  All-mem c m h = ∥∥₁_elim m c (λ d. All-memᴰ d h)
