-- ===== src/Events/Queue/Threads.antt =====
-- Several threads push while one consumer pops (include/regimeflow/events/event_queue.h): `claim` and
-- `publish` of different pushes come in any order.
use native.Mathlib.Bridge.{le_prop}
use regime_flow.Base.Perm.{All-mem, All-perm}
use regime_flow.Events.Queue.Laws.{pop-Pops, Pops}
use regime_flow.Events.Queue.Order.{drain-IsSorted, contents, IsSorted}
use regime_flow.Events.Event.{Event}
use regime_flow.Events.Queue.{
  drain_pending_locked, pop_first, pop, publish, claim, new_queue, EventQueue,
}
use regime_flow.Base.{
  ◌∙◌, ◌≤◌, ap, sym, arith, ℕ, refl, ◌∷◌, subst, ◌^◌, ◌<◌, ◌≢◌, ◌++◌, ◌+◌, Option, ◌≡◌, All, List,
  [], some, none,
}
use mathlib.Core.List.Perm
use mathlib.Core.List.{Perm, perm_middle, Pairwise, Pairwise-cons}

pub record System (D R : Type 0) : Type 0 where
  pub shared : EventQueue D R
  pub in_flight : List (Event D R)

module _ {D R : Type 0} where
  -- Numbers are 64 bits wide: a claim is taken to find one that is left.
  pub data Step : System D R → System D R → Type 0 where
    claims :
        (s : System D R) (e : Event D R)
        → s.shared.next_sequence + 1 < 2 ^ 64
        → Step s (record {
          shared = (claim e s.shared).1;
          in_flight = (claim e s.shared).0 ∷ s.in_flight;
        })
    publishes :
        (s : System D R) (e : Event D R) (xs ys : List (Event D R))
        → s.in_flight ≡ xs ++ e ∷ ys
        → Step s (record { shared = publish e s.shared; in_flight = xs ++ ys })
    pops : (s : System D R) → Step s (record s { shared = (pop s.shared).1 })

  pub data Reach (s : System D R) : System D R → Type 0 where
    here : Reach s s
    next : {t u : System D R} → Reach s t → Step t u → Reach s u

  abbrev pub start : System D R
  start = record { shared = new_queue; in_flight = [] }

  -- The events that have a number and have not been popped.
  abbrev pub numbered : System D R → List (Event D R)
  numbered s = s.in_flight ++ contents s.shared

  abbrev pub Differ : Event D R → Event D R → Type 0
  Differ a b = a.sequence ≢ b.sequence

  pub record IsNumbered (s : System D R) : Type 0 where
    pub below : All (λ (e : Event D R). e.sequence < s.shared.next_sequence) (numbered s)
    pub distinct : Pairwise Differ (numbered s)
    pub sorted : IsSorted s.shared.queue

  pub start-IsNumbered : IsNumbered start
  unfolding new_queue
  start-IsNumbered = record { below = tt; distinct = Pairwise.nil; sorted = tt }

  All-below :
      {m n : ℕ}
      → m ≤ n
      → (es : List (Event D R)) → All (λ (e : Event D R). e.sequence < m) es
      → All (λ (e : Event D R). e.sequence < n) es
  All-below h [] k = tt
  All-below h (e ∷ es) k = (omega (arith, k.0), All-below h es k.1)

  claim-IsNumbered :
      (s : System D R) (e : Event D R)
      → s.shared.next_sequence + 1 < 2 ^ 64
      → IsNumbered s
      → let (e', q) = claim e s.shared in
        IsNumbered (record { shared = q; in_flight = e' ∷ s.in_flight })
  unfolding claim
  claim-IsNumbered s e h v =
      let n = s.shared.next_sequence in
      record {
        below = (omega arith, All-below (omega arith) (numbered s) v.below);
        distinct = Pairwise-cons.1 (
          λ a m f.
              let lower = All-mem (λ (x : Event D R). x.sequence < n) le_prop m v.below in
              absurd (omega (arith, lower, f)),
          v.distinct,
        );
        sorted = v.sorted;
      }

  -- Along a permutation of the numbered events.
  perm-IsNumbered :
      (s t : System D R)
      → Perm (numbered s) (numbered t)
      → s.shared.next_sequence ≡ t.shared.next_sequence
      → IsSorted t.shared.queue
      → IsNumbered s
      → IsNumbered t
  perm-IsNumbered s t p e o v = record {
    below =
        subst (λ n. All (λ (x : Event D R). x.sequence < n) (numbered t)) e
          (All-perm (λ (x : Event D R). x.sequence < s.shared.next_sequence) (λ x. le_prop) p
            v.below);
    distinct = Perm.pairwise (λ a b. hlevel) (λ a b n f. n (sym f)) p v.distinct;
    sorted = o;
  }

  publish-perm :
      (e : Event D R) (xs ys cs : List (Event D R))
      → Perm ((xs ++ e ∷ ys) ++ cs) ((xs ++ ys) ++ e ∷ cs)
  publish-perm e xs ys cs =
      Perm.trans (Perm.append_right cs (perm_middle xs ys)) (Perm.symm (perm_middle (xs ++ ys) cs))

  pop-IsNumbered :
      (s : System D R) (r : Option (Event D R)) (q : EventQueue D R)
      → Pops s.shared (r, q)
      → q.next_sequence ≡ s.shared.next_sequence
      → IsSorted q.queue
      → IsNumbered s
      → IsNumbered (record s { shared = q })
  pop-IsNumbered s none q p e o v =
      perm-IsNumbered s (record s { shared = q })
        (subst (Perm (numbered s)) (ap (λ l. s.in_flight ++ l) (p.0 ∙ sym p.1))
          (Perm.refl (numbered s)))
        (sym e) o v
  pop-IsNumbered s (some x) q p e o v =
      let order =
        Perm.trans (Perm.append_left s.in_flight p.0) (perm_middle s.in_flight (contents q)) in
      record {
        below =
            subst (λ n. All (λ (y : Event D R). y.sequence < n) (s.in_flight ++ contents q)) (sym e)
              (All-perm (λ (y : Event D R). y.sequence < s.shared.next_sequence) (λ y. le_prop)
                order v.below).1;
        distinct =
            (Pairwise-cons.0
              (Perm.pairwise (λ a b. hlevel) (λ a b n f. n (sym f)) order v.distinct)).1;
        sorted = o;
      }

  pop_first-keeps :
      (es : List (Event D R)) (q : EventQueue D R)
      → IsSorted es
      → let n = (pop_first es (record q { queue = es })).1 in
        IsSorted n.queue × (n.next_sequence ≡ q.next_sequence)
  unfolding pop_first
  pop_first-keeps [] q s = (tt, refl)
  pop_first-keeps (e ∷ es) q s = (s.1, refl)

  pop-keeps :
      (q : EventQueue D R)
      → IsSorted q.queue
      → IsSorted (pop q).1.queue × ((pop q).1.next_sequence ≡ q.next_sequence)
  unfolding pop
  pop-keeps q s =
      pop_first-keeps (drain_pending_locked q).queue (drain_pending_locked q) (drain-IsSorted q s)

  Step-IsNumbered : {s t : System D R} → Step s t → IsNumbered s → IsNumbered t
  unfolding publish
  Step-IsNumbered (claims s e h) v = claim-IsNumbered s e h v
  Step-IsNumbered (publishes s e xs ys f) v =
      perm-IsNumbered s (record { shared = publish e s.shared; in_flight = xs ++ ys })
        (subst (λ l. Perm (l ++ contents s.shared) ((xs ++ ys) ++ e ∷ contents s.shared)) (sym f)
          (publish-perm e xs ys (contents s.shared)))
        refl v.sorted v
  Step-IsNumbered (pops s) v =
      let k = pop-keeps s.shared v.sorted in
      pop-IsNumbered s (pop s.shared).0 (pop s.shared).1 (pop-Pops s.shared v.sorted) k.1 k.0 v

  -- Whatever the threads do and in whatever order, no two events on their way have one number, each number
  -- is below the next one, and the priority queue is sorted.
  pub Reach-IsNumbered : {s : System D R} → Reach start s → IsNumbered s
  Reach-IsNumbered here = start-IsNumbered
  Reach-IsNumbered (next r st) = Step-IsNumbered st (Reach-IsNumbered r)
