-- ===== src/Server/Drain.antt =====
-- luaEngine/LuaServer.cpp: the rounds of `hanleMessageQueue`, taken by the polling thread alone.
use lua_engine.Base.{
  ℕ, suc, ◌≡◌, ◌≢◌, refl, sym, ap, ◌∙◌, true, List, [], ◌∷◌, ◌++◌, length, arith, append_assoc,
  append-nil, replicate,
}
use lua_engine.Server.{
  Poller, polling, found, handing, stopped, Server, Event, poll, distill, hand, step, run,
}
use lua_engine.Server.Queue.{held}

module _ {Conn Msg : Type 0} where
  -- An event of the polling thread.
  abbrev pub IsPoller : Event Conn Msg → Type 0
  IsPoller poll = Unit
  IsPoller distill = Unit
  IsPoller hand = Unit
  IsPoller _ = ⊥

  abbrev hands : ℕ → List (Event Conn Msg)
  hands n = replicate n hand

  module _ (same : Discrete Conn) where
    run-append :
        (es fs : List (Event Conn Msg)) (s : Server Conn Msg)
        → run same (es ++ fs) s ≡ run same fs (run same es s)
    unfolding run
    run-append [] fs s = refl
    run-append (e ∷ es) fs s = run-append es fs (step same e s)

    run-hands :
        (ms : List Msg) (s : Server Conn Msg)
        → run same (hands (suc (length ms))) (record s { poller = handing ms })
          ≡ record s { poller = polling; handed = s.handed ++ ms }
    unfolding run step
    run-hands [] s = rw append-nil
    run-hands (m ∷ ms) s =
        run-hands ms (record s { handed = s.handed ++ (m ∷ []) })
        ∙ ap (λ hs. record s { poller = polling; handed = hs }) (append_assoc s.handed (m ∷ []) ms)

    abbrev from_head : List Msg → List (Event Conn Msg)
    from_head [] = []
    from_head (m ∷ q) = poll ∷ distill ∷ hands (suc (length (m ∷ q)))

    -- What the polling thread does from where it stands to hand over all.
    abbrev pub rest_of : Poller Msg → List Msg → List (Event Conn Msg)
    rest_of polling q = from_head q
    rest_of found q = distill ∷ hands (suc (length q))
    rest_of (handing ms) q = hands (suc (length ms)) ++ from_head q
    rest_of stopped q = []

    step_found :
        (m : Msg) (q : List Msg) (s : Server Conn Msg)
        → s.started ≡ true
        → s.handle_msg ≡ true
        → step same poll (record s { poller = polling; queue = m ∷ q })
          ≡ record s { poller = found; queue = m ∷ q }
    unfolding step
    step_found m q s h k = ground arith

    run-from_head :
        (q : List Msg) (s : Server Conn Msg)
        → s.started ≡ true
        → s.handle_msg ≡ true
        → run same (from_head q) (record s { poller = polling; queue = q })
          ≡ record s { poller = polling; queue = []; handed = s.handed ++ q }
    unfolding run step
    run-from_head [] s h k =
        ap (λ hs. record s { poller = polling; queue = []; handed = hs })
          (sym (append-nil s.handed))
    run-from_head (m ∷ q) s h k =
        ap (run same (distill ∷ hands (suc (length (m ∷ q))))) (step_found m q s h k)
        ∙ run-hands (m ∷ q) (record s { queue = [] })

    -- While the loop is on and the thread has not stopped, a bounded number of its own steps empties
    -- the queue and hands over all messages that have arrived, in order.
    pub run-rest_of :
        (p : Poller Msg) (q : List Msg) (s : Server Conn Msg)
        → s.started ≡ true
        → s.handle_msg ≡ true
        → p ≢ stopped
        → run same (rest_of p q) (record s { poller = p; queue = q })
          ≡ record s { poller = polling; queue = []; handed = s.handed ++ (held p ++ q) }
    unfolding run step
    run-rest_of polling q s h k n = run-from_head q s h k
    run-rest_of found q s h k n = run-hands q (record s { queue = [] })
    run-rest_of (handing ms) q s h k n =
        run-append (hands (suc (length ms))) (from_head q)
          (record s { poller = handing ms; queue = q })
        ∙ ap (run same (from_head q)) (run-hands ms (record s { queue = q }))
        ∙ run-from_head q (record s { handed = s.handed ++ ms }) h k
        ∙ ap (λ hs. record s { poller = polling; queue = []; handed = hs })
            (append_assoc s.handed ms q)
    run-rest_of stopped q s h k n = absurd (n refl)
