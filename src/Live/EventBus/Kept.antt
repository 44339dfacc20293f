-- ===== src/Live/EventBus/Kept.antt =====
-- What becomes of the messages that are published on a bus of src/live/event_bus.cpp, whatever the threads do.
use regime_flow.Live.EventBus.{
  take_front, Turn, dispatch_turn, drain_pending, set_running, unsubscribe, subscribe, LiveTopic,
  new_bus, publish, LiveMessage, EventBus,
}
use regime_flow.Base.{
  ◌∙◌, sym, ap, if◌then◌else◌, subst, refl, ◌≡◌, ℕ, ◌∷◌, ◌++◌, [], false, true, Bool, List,
}
use mathlib.Core.List.Perm
use mathlib.Core.List.{Perm, perm_middle, append-nil}

-- The bus with the messages that have been published and those that have been handed to callbacks, and whether
-- the dispatcher is in its loop.
pub record Traffic (R C : Type 0) : Type 0 where
  pub bus : EventBus R C
  pub published : List (LiveMessage R)
  pub handed : List (LiveMessage R)
  pub in_turn : Bool

same_waiting :
    {M : Type 0} {published : List M} (handed : List M) {q q' : List M}
    → q ≡ q'
    → Perm published (handed ++ q)
    → Perm published (handed ++ q')
same_waiting {published = published} handed e p = subst (λ q. Perm published (handed ++ q)) e p

module _ {R C : Type 0} where
  -- A step of a thread that uses the bus, or of the dispatcher. `stop` is two steps: it asks the dispatcher to
  -- stop, and once that has left its loop it drains what is pending.
  pub data Step : Traffic R C → Traffic R C → Type 0 where
    publishes :
        (s : Traffic R C) (m : LiveMessage R)
        → Step s (record s { bus = publish m s.bus; published = m ∷ s.published })
    subscribes :
        (s : Traffic R C) (topic : LiveTopic) (callback : C)
        → Step s (record s { bus = (subscribe topic callback s.bus).1 })
    unsubscribes : (s : Traffic R C) (id : ℕ) → Step s (record s { bus = unsubscribe id s.bus })
    starts :
        (s : Traffic R C) → s.in_turn ≡ false → Step s (record s { bus = set_running true s.bus })
    asks_stop : (s : Traffic R C) → Step s (record s { bus = set_running false s.bus })
    stops :
        (s : Traffic R C)
        → s.bus.running ≡ false
        → s.in_turn ≡ false
        → Step s (record s { bus = drain_pending s.bus })
    enters : (s : Traffic R C) → s.bus.running ≡ true → Step s (record s { in_turn = true })
    leaves :
        (s : Traffic R C) (b : EventBus R C)
        → s.in_turn ≡ true
        → dispatch_turn s.bus ≡ Turn.breaks b
        → Step s (record s { bus = b; in_turn = false })
    hands :
        (s : Traffic R C) (m : LiveMessage R) (callbacks : List C) (b : EventBus R C)
        → s.in_turn ≡ true
        → dispatch_turn s.bus ≡ Turn.calls m callbacks b
        → Step s (record s { bus = b; handed = m ∷ s.handed; in_turn = false })

  pub data Reach (s : Traffic R C) : Traffic R C → Type 0 where
    here : Reach s s
    next : {t u : Traffic R C} → Reach s t → Step t u → Reach s u

  abbrev pub start : Traffic R C
  start = record { bus = new_bus; published = []; handed = []; in_turn = false }

  -- Each message that was published has been handed out, or is in the queue, or is pending, and once only.
  abbrev pub IsKept : Traffic R C → Type 0
  IsKept s = Perm s.published (s.handed ++ (s.bus.queue ++ s.bus.pending))

  -- What a turn takes out.
  abbrev Takes : List (LiveMessage R) → Turn R C → Type 0
  Takes l Turn.waits = Unit
  Takes l (Turn.breaks b) = (l ≡ []) × (b.queue ++ b.pending ≡ [])
  Takes l (Turn.calls m _ b) = l ≡ m ∷ b.queue ++ b.pending

  take_front-Takes :
      (l : List (LiveMessage R)) (b : EventBus R C)
      → Takes l (take_front l (record b { queue = l; pending = [] }))
  unfolding take_front
  take_front-Takes [] b = ended b.running
    where
      ended :
          (running : Bool)
          → Takes []
              (if running then Turn.waits else Turn.breaks (record b { queue = []; pending = [] }))
      ended true = tt
      ended false = (refl, refl)
  take_front-Takes (m ∷ q) b = ap (λ (l : List (LiveMessage R)). m ∷ l) (sym (append-nil q))

  dispatch_turn-Takes : (b : EventBus R C) → Takes (b.queue ++ b.pending) (dispatch_turn b)
  unfolding dispatch_turn
  dispatch_turn-Takes b = take_front-Takes (b.queue ++ b.pending) b

  Step-IsKept : {s t : Traffic R C} → Step s t → IsKept s → IsKept t
  Step-IsKept (Step.publishes s m) p =
      unfold publish in
      Perm.trans (Perm.cons m p) (
        Perm.symm (
          Perm.trans (Perm.append_left s.handed (perm_middle s.bus.queue s.bus.pending))
            (perm_middle s.handed (s.bus.queue ++ s.bus.pending))))
  Step-IsKept (Step.subscribes s topic callback) p = unfold subscribe in p
  Step-IsKept (Step.unsubscribes s id) p = unfold unsubscribe in p
  Step-IsKept (Step.starts s h) p = p
  Step-IsKept (Step.asks_stop s) p = p
  Step-IsKept (Step.stops s h k) p =
      unfold drain_pending in
      same_waiting s.handed (sym (append-nil (s.bus.queue ++ s.bus.pending))) p
  Step-IsKept (Step.enters s h) p = p
  Step-IsKept (Step.leaves s b h e) p =
      let t = subst (Takes (s.bus.queue ++ s.bus.pending)) e (dispatch_turn-Takes s.bus) in
      same_waiting s.handed (t.0 ∙ sym t.1) p
  Step-IsKept (Step.hands s m callbacks b h e) p =
      let t = subst (Takes (s.bus.queue ++ s.bus.pending)) e (dispatch_turn-Takes s.bus) in
      Perm.trans (same_waiting s.handed t p) (perm_middle s.handed (b.queue ++ b.pending))

  -- Whatever the threads and the dispatcher do and in whatever order, each message that was published has been
  -- handed out or still waits, and none is lost or doubled.
  pub Reach-IsKept : {s : Traffic R C} → Reach start s → IsKept s
  Reach-IsKept Reach.here = Perm.refl []
  Reach-IsKept (Reach.next r t) = Step-IsKept t (Reach-IsKept r)
