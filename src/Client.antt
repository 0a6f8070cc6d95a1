-- ===== src/Client.antt =====
-- luaEngine/Client.cc: the chat client, a connection that comes and goes and the lines that it sends.
pub mod Session
use lua_engine.Base.{Option, none, some, Bool, true, false, List, [], ◌∷◌, ◌++◌, ℕ}
use lua_engine.Codec.{send}
use lua_engine.Codec.Buffer.{Muduo}

pub data Event (Conn : Type 0) : Type 0 where
  -- a report on a connection, with `conn->connected()`
  report : Bool → Conn → Event Conn
  -- a line of input, handed to `write`
  line : List ℕ → Event Conn

-- `onConnection`, on `connection_`
unfoldable pub on_connection : {Conn : Type 0} → Bool → Conn → Option Conn → Option Conn
on_connection true conn old = some conn
on_connection false conn old = none

module _ (m : Muduo) {Conn : Type 0} where
  -- `write`: what is sent, and on which connection.
  unfoldable pub write : List ℕ → Option Conn → List (Conn × m.Buffer)
  write message none = []
  write message (some conn) = (conn, send m message) ∷ []

  -- A sequence of reports and lines, each under the client's mutex.
  unfoldable pub run : List (Event Conn) → Option Conn → List (Conn × m.Buffer)
  unfolding on_connection write
  run [] connection = []
  run (report up conn ∷ es) connection = run es (on_connection up conn connection)
  run (line message ∷ es) connection = write message connection ++ run es connection
