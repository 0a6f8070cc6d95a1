-- ===== src/Tests/Server.antt =====
-- Interleavings of the server with connections and messages that are numbers.
use lua_engine.Base.{ℕ, ◌≡◌, refl, true, false, List, [], ◌∷◌, arith}
use mathlib.Core.List.{Perm}
use native.Mathlib.Decide.{ℕ_discrete}
use lua_engine.Server.{
  Server, Event, start, up, down, received, timer, poll, distill, hand, run, step, initial, has,
  found, polling,
}
use lua_engine.Server.Queue.{all_messages, run-fifo, run-perm}
use lua_engine.Server.Drain.{rest_of, run-rest_of}
use lua_engine.Server.Connections.{Distinct, last_report, run-connections}

abbrev none_yet : Server ℕ ℕ
none_yet = initial

-- A message arrives while the polling thread hands over another.
abbrev mixed : List (Event ℕ ℕ)
mixed = start ∷ received 5 ∷ poll ∷ distill ∷ received 6 ∷ hand ∷ poll ∷ []

mixed_run : (run ℕ_discrete mixed none_yet).handed ≡ 5 ∷ []
unfolding run step
mixed_run = refl

run-fifo_example : all_messages (run ℕ_discrete mixed none_yet) ≡ 5 ∷ 6 ∷ []
run-fifo_example = run-fifo ℕ_discrete mixed none_yet (omega arith)

run-perm_example : Perm (all_messages (run ℕ_discrete (timer 9 ∷ mixed) none_yet)) (9 ∷ 5 ∷ 6 ∷ [])
run-perm_example = run-perm ℕ_discrete (timer 9 ∷ mixed) none_yet

abbrev two_waiting : Server ℕ ℕ
two_waiting = record {
  started = true;
  handle_msg = true;
  connections = [];
  queue = [];
  poller = polling;
  handed = 4 ∷ [];
  announced = [];
}

run-rest_of_example :
    run ℕ_discrete
      (rest_of ℕ_discrete found (7 ∷ 8 ∷ []))
      (record two_waiting { poller = found; queue = 7 ∷ 8 ∷ [] })
    ≡ record two_waiting { poller = polling; queue = []; handed = 4 ∷ 7 ∷ 8 ∷ [] }
run-rest_of_example = run-rest_of ℕ_discrete found (7 ∷ 8 ∷ []) two_waiting refl refl (λ e. cc)

abbrev visits : List (Event ℕ ℕ)
visits = up 1 ∷ up 2 ∷ up 1 ∷ down 2 ∷ []

run-connections_example :
    Distinct ℕ_discrete (run ℕ_discrete visits none_yet).connections
    × ((c : ℕ)
        → has ℕ_discrete c (run ℕ_discrete visits none_yet).connections
          ≡ last_report ℕ_discrete c false visits)
run-connections_example = run-connections ℕ_discrete visits none_yet tt
