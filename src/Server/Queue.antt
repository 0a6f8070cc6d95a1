-- ===== src/Server/Queue.antt =====
-- luaEngine/LuaServer.h and LuaServer.cpp: where the messages stand while the handlers and the polling
-- thread take their steps in any order.
use lua_engine.Base.{
  ◌≡◌, refl, sym, ap, ◌∙◌, List, [], ◌∷◌, ◌++◌, subst, arith, append_assoc, append-nil, All,
}
use mathlib.Core.List.{Perm, perm_middle}
use mathlib.Core.List.Perm
use lua_engine.Server.{
  Poller, polling, found, handing, Server, Event, start, up, down, received, timer, poll, distill,
  hand, step, run, poller_step,
}

-- The messages that the polling thread has taken and not handed over.
abbrev pub held : {Msg : Type 0} → Poller Msg → List Msg
held (handing ms) = ms
held _ = []

module _ {Msg : Type 0} where
  perm_of_eq : {xs ys : List Msg} → xs ≡ ys → Perm xs ys
  perm_of_eq {xs} e = subst (Perm xs) e (Perm.refl xs)

  move_last : (xs ys : List Msg) (a : Msg) → Perm (xs ++ (a ∷ ys)) ((xs ++ ys) ++ (a ∷ []))
  move_last xs ys a = Perm.trans (perm_middle xs ys) (
      Perm.symm (
        subst (λ zs. Perm ((xs ++ ys) ++ (a ∷ [])) (a ∷ zs)) (append-nil (xs ++ ys))
          (perm_middle (xs ++ ys) [])))

module _ {Conn Msg : Type 0} where
  -- The messages of a list of events, each at the place where it enters the queue.
  abbrev pub arrivals : List (Event Conn Msg) → List Msg
  arrivals [] = []
  arrivals (received msg ∷ es) = msg ∷ arrivals es
  arrivals (timer msg ∷ es) = msg ∷ arrivals es
  arrivals (_ ∷ es) = arrivals es

  abbrev pub NotTimer : Event Conn Msg → Type 0
  NotTimer (timer msg) = ⊥
  NotTimer _ = Unit

  -- Handed over, held by the polling thread, and waiting in the queue.
  abbrev pub all_messages : Server Conn Msg → List Msg
  all_messages s = s.handed ++ (held s.poller ++ s.queue)

  abbrev pub arrival : Event Conn Msg → List Msg
  arrival (received msg) = msg ∷ []
  arrival (timer msg) = msg ∷ []
  arrival _ = []

  poller_step-keeps :
      (e : Event Conn Msg) (p : Poller Msg) (s : Server Conn Msg)
      → s.poller ≡ p
      → all_messages (poller_step e p s) ≡ all_messages s
  unfolding poller_step
  poller_step-keeps poll polling s h = ground arith
  poller_step-keeps distill found s h = ground (arith, append-nil s.queue)
  poller_step-keeps hand (handing []) s h = ground arith
  poller_step-keeps hand (handing (m ∷ ms)) s h =
      append_assoc s.handed (m ∷ []) (ms ++ s.queue) ∙ ground arith
  poller_step-keeps _ _ s h = refl

  queue-append :
      (s : Server Conn Msg) (msg : Msg)
      → s.handed ++ (held s.poller ++ (s.queue ++ (msg ∷ []))) ≡ all_messages s ++ (msg ∷ [])
  queue-append s msg = simp append_assoc

  module _ (same : Discrete Conn) where
    -- Without the timer, an event adds its message behind all others.
    step-fifo :
        (e : Event Conn Msg) (s : Server Conn Msg)
        → NotTimer e
        → all_messages (step same e s) ≡ all_messages s ++ arrival e
    unfolding step
    step-fifo (received msg) s h = queue-append s msg
    step-fifo (timer msg) s h = elim h [ ]
    step-fifo poll s h = poller_step-keeps poll s.poller s refl ∙ sym (append-nil (all_messages s))
    step-fifo distill s h =
        poller_step-keeps distill s.poller s refl ∙ sym (append-nil (all_messages s))
    step-fifo hand s h = poller_step-keeps hand s.poller s refl ∙ sym (append-nil (all_messages s))
    step-fifo _ s h = sym (append-nil (all_messages s))

    arrivals-cons :
        (e : Event Conn Msg) (es : List (Event Conn Msg))
        → arrivals (e ∷ es) ≡ arrival e ++ arrivals es
    arrivals-cons (received msg) es = refl
    arrivals-cons (timer msg) es = refl
    arrivals-cons _ es = refl

    -- Under every interleaving without timer messages, what has been handed over, what the polling
    -- thread holds and what waits in the queue, in this order, are the messages in order of arrival.
    pub run-fifo :
        (es : List (Event Conn Msg)) (s : Server Conn Msg)
        → All NotTimer es
        → all_messages (run same es s) ≡ all_messages s ++ arrivals es
    unfolding run
    run-fifo [] s h = sym (append-nil (all_messages s))
    run-fifo (e ∷ es) s h =
        run-fifo es (step same e s) h.1
        ∙ ap (λ ms. ms ++ arrivals es) (step-fifo e s h.0)
        ∙ append_assoc (all_messages s) (arrival e) (arrivals es)
        ∙ ap (λ ms. all_messages s ++ ms) (sym (arrivals-cons e es))

    step-perm :
        (e : Event Conn Msg) (s : Server Conn Msg)
        → Perm (all_messages (step same e s)) (all_messages s ++ arrival e)
    step-perm (timer msg) s = rw (← append_assoc s.handed (held s.poller) s.queue) (
        unfold step in
        rw (← append_assoc s.handed (held s.poller) (msg ∷ s.queue))
          (move_last (s.handed ++ held s.poller) s.queue msg))
    step-perm start s = perm_of_eq (step-fifo start s tt)
    step-perm (up c) s = perm_of_eq (step-fifo (up c) s tt)
    step-perm (down c) s = perm_of_eq (step-fifo (down c) s tt)
    step-perm (received msg) s = perm_of_eq (step-fifo (received msg) s tt)
    step-perm poll s = perm_of_eq (step-fifo poll s tt)
    step-perm distill s = perm_of_eq (step-fifo distill s tt)
    step-perm hand s = perm_of_eq (step-fifo hand s tt)

    -- Under every interleaving, timer messages included, each message that arrived is in exactly one of
    -- the three places, and as often as it arrived: none is lost and none is handed over twice.
    pub run-perm :
        (es : List (Event Conn Msg)) (s : Server Conn Msg)
        → Perm (all_messages (run same es s)) (all_messages s ++ arrivals es)
    unfolding run
    run-perm [] s = perm_of_eq (sym (append-nil (all_messages s)))
    run-perm (e ∷ es) s =
        rw (arrivals-cons e es, ← append_assoc (all_messages s) (arrival e) (arrivals es))
          (Perm.trans (run-perm es (step same e s))
            (Perm.append_right (arrivals es) (step-perm e s)))
