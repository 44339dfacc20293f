-- ===== src/Events/Queue/Laws.antt =====
-- What the operations of include/regimeflow/events/event_queue.h promise: the earliest event comes first,
-- no event is lost or made up, and the moment at which a thread links its event does not matter.
use mathlib.Core.List.Perm
use mathlib.Core.List.{mem-cons_self, rel_of_Pairwise-cons, Pairwise-cons, Perm, Permᴰ, Pairwise}
use regime_flow.Base.Perm.{All-perm, length-perm}
use regime_flow.Events.Queue.Order.{
  enqueue_comm, Precedes, drain-IsSorted, drain-perm, contents, IsSorted,
}
use regime_flow.Events.Queue.{
  enqueue, absorb, drain_pending_locked, Event, pop, pop_first, EventQueue,
}
use regime_flow.Base.{
  ◌∙◌, length, List, arith, ◌≢◌, sym, ◌≤◌, subst, ◌++◌, ℕ, ap, suc, zero, All, ◌∷◌, ◌≡◌, Option, [],
  refl, some, none,
}

module _ {D R : Type 0} where
  -- How a pop of `q` ends.
  abbrev pub Pops : EventQueue D R → Option (Event D R) × EventQueue D R → Type 0
  Pops q (none, n) = (contents q ≡ []) × (contents n ≡ [])
  Pops q (some e, n) =
      Perm (contents q) (e ∷ contents n) × All (Precedes e) (contents n) × IsSorted n.queue

  pop_first-Pops :
      (q : EventQueue D R) (es : List (Event D R)) (n : EventQueue D R)
      → n.pending ≡ []
      → Perm es (contents q)
      → IsSorted es
      → Pops q (pop_first es (record n { queue = es }))
  unfolding pop_first
  pop_first-Pops q [] n d p s = (Perm.eq-nil (Perm.symm p), ap (λ l. l ++ []) d)
  pop_first-Pops q (e ∷ es) n d p s =
      let c : n.pending ++ es ≡ es = ap (λ l. l ++ es) d in
      (
        subst (λ l. Perm (contents q) (e ∷ l)) (sym c) (Perm.symm p),
        subst (λ l. All (Precedes e) l) (sym c) s.0,
        s.1,
      )

  -- A pop fails on an empty queue only. Otherwise it takes out one event, for which no other has to come
  -- first, and keeps all the rest.
  pub pop-Pops : (q : EventQueue D R) → IsSorted q.queue → Pops q (pop q)
  unfolding pop
  pop-Pops q s =
      pop_first-Pops q (drain_pending_locked q).queue (drain_pending_locked q)
        (unfold drain_pending_locked in refl) (drain-perm q) (drain-IsSorted q s)

  -- The events in the order in which up to `k` pops give them.
  unfoldable pub pop_all : ℕ → EventQueue D R → List (Event D R)
  pop_all zero q = []
  pop_all (suc k) q =
      let (first, n) = pop q in
      let rest = pop_all k n in elim first [ none ↦ [] | some e ↦ e ∷ rest ]

  abbrev pub Sorts : EventQueue D R → List (Event D R) → Type 0
  Sorts q es = Perm es (contents q) × IsSorted es

  pop_all_step :
      (k : ℕ) (q : EventQueue D R) (r : Option (Event D R)) (n : EventQueue D R)
      → Pops q (r, n)
      → length (contents q) ≤ suc k
      → (length (contents n) ≤ k → IsSorted n.queue → Sorts n (pop_all k n))
      → Sorts q (elim r [ none ↦ [] | some e ↦ e ∷ pop_all k n ])
  pop_all_step k q none n p h ih = (subst (Perm []) (sym p.0) (Perm.refl []), tt)
  pop_all_step k q (some e) n p h ih =
      let s = ih (omega (arith, length-perm p.0)) p.2 in
      (
        Perm.trans (Perm.cons e s.0) (Perm.symm p.0),
        (All-perm (Precedes e) (λ a. hlevel) (Perm.symm s.0) p.1, s.1),
      )

  nothing_left : (es : List (Event D R)) → length es ≤ 0 → Perm [] es × IsSorted {D = D} {R = R} []
  nothing_left [] h = (Perm.refl [], tt)
  nothing_left (e ∷ es) h = absurd (omega arith)

  -- Popped until it is empty, the queue gives every event that it held, once, in order of time, then of
  -- priority, then of number.
  pub pop_all-Sorts :
      (k : ℕ) (q : EventQueue D R)
      → length (contents q) ≤ k
      → IsSorted q.queue
      → Sorts q (pop_all k q)
  unfolding pop_all
  pop_all-Sorts zero q h s = nothing_left (contents q) h
  pop_all-Sorts (suc k) q h s =
      let (r, n) = pop q in pop_all_step k q r n (pop-Pops q s) h (λ h' s'. pop_all-Sorts k n h' s')

  -- The queue after a drain does not depend on the order in which the pending events were linked, as long
  -- as no two have one number.
  pub absorb_order :
      {ps qs : List (Event D R)} (xs : List (Event D R))
      → Permᴰ ps qs
      → Pairwise (λ (a b : Event D R). a.sequence ≢ b.sequence) ps
      → absorb ps xs ≡ absorb qs xs
  unfolding absorb
  absorb_order xs Permᴰ.nil d = refl
  absorb_order xs (Permᴰ.cons {a = a} {b = b} {l₂ = l₂} e p) d =
      absorb_order (enqueue a xs) p (Pairwise-cons.0 d).1
      ∙ ap (λ (x : Event D R). absorb l₂ (enqueue x xs)) e
  absorb_order xs (Permᴰ.swap {a = a} {b = b} {a' = a'} {b' = b'} {l = l} e f) d =
      let apart : a.sequence ≢ b.sequence = rel_of_Pairwise-cons d mem-cons_self in
      ap (absorb l) (enqueue_comm b a xs (λ e. apart (sym e)))
      ∙ ap (λ (x : Event D R). absorb l (enqueue x (enqueue b xs))) e
      ∙ ap (λ (x : Event D R). absorb l (enqueue b' (enqueue x xs))) f
  absorb_order xs (Permᴰ.trans p q) d =
      absorb_order xs p d
      ∙ absorb_order xs q (Perm.pairwise (λ a b. hlevel) (λ a b n e. n (sym e)) ∣ p ∣₁ d)
