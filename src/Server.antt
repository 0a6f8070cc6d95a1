-- ===== src/Server.antt =====
-- luaEngine/LuaServer.h and luaEngine/LuaServer.cpp: the server's message queue between the thread of
-- the event loop, which runs the handlers, and the thread of `hanleMessageQueue`, which polls.
-- Each event is one critical section of `mutex_`, or one step of the polling thread outside of it; a
-- sequence of events is an interleaving. The order in which `std::set` keeps connections (by address)
-- is left out: a set is a list with no element twice.
pub mod Queue
pub mod Connections
pub mod Drain
pub mod Broadcast
use lua_engine.Base.{ℕ, Bool, true, false, ◌&&◌, List, [], ◌∷◌, ◌++◌, if◌then◌else◌}
use mathlib.Core.Logic.{ite}
use lua_engine.Codec.{MessageQueue, send}
use lua_engine.Codec.Buffer.{Muduo}

-- Where the thread of `hanleMessageQueue` stands.
pub data Poller (Msg : Type 0) : Type 0 where
  polling : Poller Msg
  found : Poller Msg
  handing : List Msg → Poller Msg
  stopped : Poller Msg

pub record Server (Conn Msg : Type 0) : Type 0 where
  -- `g_server` points to the server
  pub started : Bool
  -- `bHandleMsg`
  pub handle_msg : Bool
  -- `connections_`
  pub connections : List Conn
  -- `messageQueue_`
  pub queue : List Msg
  pub poller : Poller Msg
  -- the calls of `_onMessage` and of `_onNewConnection` so far
  pub handed : List Msg
  pub announced : List Conn

pub data Event (Conn Msg : Type 0) : Type 0 where
  start : Event Conn Msg
  up : Conn → Event Conn Msg
  down : Conn → Event Conn Msg
  received : Msg → Event Conn Msg
  timer : Msg → Event Conn Msg
  poll : Event Conn Msg
  distill : Event Conn Msg
  hand : Event Conn Msg

module _ {Conn Msg : Type 0} where
  -- `hasMessge`
  abbrev pub has_message : Server Conn Msg → Bool
  has_message s = elim (s.queue) [ [] ↦ false | m ∷ ms ↦ true ]

  -- `onMessageQueue`
  unfoldable pub on_message_queue : Msg → Server Conn Msg → Server Conn Msg
  on_message_queue msg s = record s { queue = s.queue ++ (msg ∷ []) }

  -- `onTimerMessage`
  unfoldable pub on_timer_message : Msg → Server Conn Msg → Server Conn Msg
  on_timer_message msg s = record s { queue = msg ∷ s.queue }

  -- `distillMessageQueue` into an empty list, by `swap`.
  unfoldable pub distill_message_queue : Server Conn Msg → Server Conn Msg
  distill_message_queue s = record s { queue = []; poller = handing s.queue }

  -- The two tests at the head of the loop of `hanleMessageQueue`.
  unfoldable pub poll_queue : Server Conn Msg → Server Conn Msg
  poll_queue s =
      if s.handle_msg
      then (if s.started && has_message s then record s { poller = found } else s)
      else record s { poller = stopped }

  -- One round of the inner `for`; behind the last message the outer loop goes on.
  unfoldable pub hand_message : List Msg → Server Conn Msg → Server Conn Msg
  hand_message [] s = record s { poller = polling }
  hand_message (msg ∷ rest) s = record s { poller = handing rest; handed = s.handed ++ (msg ∷ []) }

  -- The polling thread takes a step where it stands, and no other.
  unfoldable pub poller_step : Event Conn Msg → Poller Msg → Server Conn Msg → Server Conn Msg
  unfolding poll_queue distill_message_queue hand_message
  poller_step poll polling s = poll_queue s
  poller_step distill found s = distill_message_queue s
  poller_step hand (handing ms) s = hand_message ms s
  poller_step _ _ s = s

-- `connections_`, as `std::set` keeps it: no element twice.
module _ {Conn : Type 0} (same : Discrete Conn) where
  abbrev pub has : Conn → List Conn → Bool
  has c [] = false
  has c (d ∷ ds) = ite (same c d) true (has c ds)

  abbrev pub insert_conn : Conn → List Conn → List Conn
  insert_conn c [] = c ∷ []
  insert_conn c (d ∷ ds) = ite (same c d) (d ∷ ds) (d ∷ insert_conn c ds)

  abbrev pub erase_conn : Conn → List Conn → List Conn
  erase_conn c [] = []
  erase_conn c (d ∷ ds) = ite (same c d) ds (d ∷ erase_conn c ds)

module _ {Conn Msg : Type 0} (same : Discrete Conn) where
  -- `onConnection`, by `conn->connected()`.
  unfoldable pub on_connection : Bool → Conn → Server Conn Msg → Server Conn Msg
  on_connection true c s = record s {
    connections = insert_conn same c s.connections;
    announced = s.announced ++ (c ∷ []);
  }
  on_connection false c s = record s { connections = erase_conn same c s.connections }

  unfoldable pub step : Event Conn Msg → Server Conn Msg → Server Conn Msg
  unfolding on_connection on_message_queue on_timer_message poller_step
  step start s = record s { started = true }
  step (up c) s = on_connection true c s
  step (down c) s = on_connection false c s
  step (received msg) s = on_message_queue msg s
  step (timer msg) s = on_timer_message msg s
  step poll s = poller_step poll s.poller s
  step distill s = poller_step distill s.poller s
  step hand s = poller_step hand s.poller s

  unfoldable pub run : List (Event Conn Msg) → Server Conn Msg → Server Conn Msg
  run [] s = s
  run (e ∷ es) s = run es (step e s)

-- The state before the server is constructed.
abbrev pub initial : {Conn Msg : Type 0} → Server Conn Msg
initial = record {
  started = false;
  handle_msg = true;
  connections = [];
  queue = [];
  poller = polling;
  handed = [];
  announced = [];
}

-- `onStringMessage`: a frame of the message for each connection, in a buffer of its own.
unfoldable pub on_string_message :
    (m : Muduo) {Conn : Type 0} → List ℕ → List Conn → List (Conn × m.Buffer)
on_string_message m message [] = []
on_string_message m message (c ∷ cs) = (c, send m message) ∷ on_string_message m message cs
