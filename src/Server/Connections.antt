-- ===== src/Server/Connections.antt =====
-- luaEngine/LuaServer.cpp: the set of connections and the reports of `onConnection`.
use lua_engine.Base.{◌≡◌, refl, ap, ◌∙◌, Bool, true, false, List, [], ◌∷◌, arith}
use mathlib.Core.Logic.{ite}
use lua_engine.Server.{
  Server, Event, up, down, poll, distill, hand, step, run, has, insert_conn, erase_conn, Poller,
  poller_step, polling, found, handing,
}

module _ {Conn : Type 0} (same : Discrete Conn) where
  -- No element twice.
  abbrev pub Distinct : List Conn → Type 0
  Distinct [] = Unit
  Distinct (c ∷ cs) = (has same c cs ≡ false) × Distinct cs

  has-insert :
      (c d : Conn) (ds : List Conn)
      → has same c (insert_conn same d ds) ≡ ite (same c d) true (has same c ds)
  has-insert c d [] = refl
  has-insert c d (e ∷ ds) = ground (arith, has-insert c d ds)

  has-erase :
      (c d : Conn) (ds : List Conn)
      → Distinct ds
      → has same c (erase_conn same d ds) ≡ ite (same c d) false (has same c ds)
  has-erase c d [] h = ground arith
  has-erase c d (e ∷ ds) h = ground (arith, has-erase c d ds h.1, h.0)

  insert-Distinct : (d : Conn) (ds : List Conn) → Distinct ds → Distinct (insert_conn same d ds)
  insert-Distinct d [] h = ground arith
  insert-Distinct d (e ∷ ds) h = ground (arith, has-insert e d ds, insert-Distinct d ds h.1)

  erase-Distinct : (d : Conn) (ds : List Conn) → Distinct ds → Distinct (erase_conn same d ds)
  erase-Distinct d [] h = tt
  erase-Distinct d (e ∷ ds) h = ground (arith, has-erase e d ds h.1, erase-Distinct d ds h.1)

module _ {Conn Msg : Type 0} (same : Discrete Conn) where
  -- The last report on `c`, or `b` where there is none.
  abbrev pub last_report : Conn → Bool → List (Event Conn Msg) → Bool
  last_report c b [] = b
  last_report c b (up d ∷ es) = last_report c (ite (same c d) true b) es
  last_report c b (down d ∷ es) = last_report c (ite (same c d) false b) es
  last_report c b (_ ∷ es) = last_report c b es

  poller_step-connections :
      (e : Event Conn Msg) (p : Poller Msg) (s : Server Conn Msg)
      → (poller_step e p s).connections ≡ s.connections
  unfolding poller_step
  poller_step-connections poll polling s = ground arith
  poller_step-connections distill found s = refl
  poller_step-connections hand (handing []) s = refl
  poller_step-connections hand (handing (m ∷ ms)) s = refl
  poller_step-connections _ _ s = refl

  step-Distinct :
      (e : Event Conn Msg) (s : Server Conn Msg)
      → Distinct same s.connections
      → Distinct same (step same e s).connections
  unfolding step
  step-Distinct (up d) s h = insert-Distinct same d s.connections h
  step-Distinct (down d) s h = erase-Distinct same d s.connections h
  step-Distinct poll s h = rw (poller_step-connections poll s.poller s) h
  step-Distinct distill s h = rw (poller_step-connections distill s.poller s) h
  step-Distinct hand s h = rw (poller_step-connections hand s.poller s) h
  step-Distinct _ s h = h

  abbrev report : Conn → Bool → Event Conn Msg → Bool
  report c b (up d) = ite (same c d) true b
  report c b (down d) = ite (same c d) false b
  report c b _ = b

  last_report-cons :
      (c : Conn) (b : Bool) (e : Event Conn Msg) (es : List (Event Conn Msg))
      → last_report c (report c b e) es ≡ last_report c b (e ∷ es)
  last_report-cons c b (up d) es = refl
  last_report-cons c b (down d) es = refl
  last_report-cons c b _ es = refl

  step-has :
      (e : Event Conn Msg) (s : Server Conn Msg)
      → Distinct same s.connections
      → (c : Conn) → has same c (step same e s).connections ≡ report c (has same c s.connections) e
  unfolding step
  step-has (up d) s h c = has-insert same c d s.connections
  step-has (down d) s h c = has-erase same c d s.connections h
  step-has poll s h c = ap (has same c) (poller_step-connections poll s.poller s)
  step-has distill s h c = ap (has same c) (poller_step-connections distill s.poller s)
  step-has hand s h c = ap (has same c) (poller_step-connections hand s.poller s)
  step-has _ s h c = refl

  -- After any events the set holds no connection twice, and it holds exactly those connections whose
  -- last report was up.
  pub run-connections :
      (es : List (Event Conn Msg)) (s : Server Conn Msg)
      → Distinct same s.connections
      → Distinct same (run same es s).connections
        × ((c : Conn)
            → has same c (run same es s).connections ≡ last_report c (has same c s.connections) es)
  unfolding run
  run-connections [] s h = (h, λ c. refl)
  run-connections (e ∷ es) s h =
      let (distinct, follows) = run-connections es (step same e s) (step-Distinct e s h) in
      (
        distinct,
        λ c.
            follows c ∙ ap (λ b. last_report c b es) (step-has e s h c) ∙ last_report-cons c _ e es,
      )
