-- ===== src/Callback.antt =====
-- luaEngine/LuaStart.cpp, the callbacks into Lua, and the loop of `hanleMessageQueue` in
-- luaEngine/LuaServer.cpp that makes them. The calls of the Lua API are parameters, with the stack
-- effect that its manual documents. A stack is a list, its top first.
pub mod Api
pub mod Height
use lua_engine.Base.{ℕ, ◌+◌, Bool, true, false, List, [], ◌∷◌, ◌==◌, if◌then◌else◌}
use lua_engine.Base.Int.{ℤ, negsuc}
use lua_engine.Codec.{MessageQueue}
use Api.{LuaApi}

-- `lua_messgecallback` and `lua_newconnectioncallback`
pub record Callbacks : Type 0 where
  pub message : ℤ
  pub new_connection : ℤ

-- `LUA_REFNIL` is -1.
abbrev pub no_callbacks : Callbacks
no_callbacks = record { message = negsuc 0; new_connection = negsuc 0 }

-- What a `const char *` to the bytes of a string shows: the bytes in front of the first zero.
abbrev pub c_str : List ℕ → List ℕ
c_str [] = []
c_str (b ∷ bs) = if b == 0 then [] else b ∷ c_str bs

module _ (api : LuaApi) where
  open api use {State, raw_geti, push_string, pcall, ref}

  -- `setMessageCallback`
  unfoldable pub set_message_callback : State → Callbacks → State × Callbacks
  set_message_callback l cb = let (r, l') = ref l in (l', record cb { message = r })

  -- `setNewConnectionCallback`
  unfoldable pub set_new_connection_callback : State → Callbacks → State × Callbacks
  set_new_connection_callback l cb = let (r, l') = ref l in (l', record cb { new_connection = r })

  -- `onMessage` up to its `lua_pcall`, and whole.
  unfoldable pub push_message_call : Callbacks → State → List ℕ → List ℕ → State
  push_message_call cb l tm msg = push_string (push_string (raw_geti l cb.message) tm) msg

  unfoldable pub on_message : Callbacks → State → List ℕ → List ℕ → ℕ × State
  unfolding push_message_call
  on_message cb l tm msg = pcall (push_message_call cb l tm msg) 2

  -- `onNewConnection` up to its `lua_pcall`, and whole.
  unfoldable pub push_connection_call : Callbacks → State → List ℕ → State
  push_connection_call cb l ip = push_string (raw_geti l cb.new_connection) ip

  unfoldable pub on_new_connection : Callbacks → State → List ℕ → ℕ × State
  unfolding push_connection_call
  on_new_connection cb l ip = pcall (push_connection_call cb l ip) 1

  -- The inner `for` of `hanleMessageQueue`, with the number of calls that failed. The status of a call
  -- is dropped, as in the source.
  unfoldable pub hand_messages :
      {Conn Time : Type 0} (show : Time → List ℕ)
      → Callbacks
      → List (MessageQueue Conn Time)
      → State
      → ℕ × State
  hand_messages show cb [] l = (0, l)
  hand_messages show cb (m ∷ ms) l =
      let (status, l') = on_message cb l (show m.timestamp) (c_str m.message) in
      let (failed, l'') = hand_messages show cb ms l' in
      ((if status == 0 then failed else failed + 1), l'')
