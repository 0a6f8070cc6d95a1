-- ===== src/Callback/Api.antt =====
-- The calls of the Lua API that luaEngine/LuaStart.cpp makes, by their documented stack effect.
use lua_engine.Base.{ℕ, ◌+◌, ◌≤◌, ◌≡◌, ◌≢◌, List, ◌∷◌, length, drop}
use lua_engine.Base.Int.{ℤ}

pub record LuaApi : Type 1 where
  pub State : Type 0
  pub Value : Type 0
  pub stack : State → List Value
  pub registry : State → ℤ → Value
  pub of_string : List ℕ → Value
  -- `lua_rawgeti(L, LUA_REGISTRYINDEX, r)`
  pub raw_geti : State → ℤ → State
  -- `lua_pushstring(L, s)`, of a string without its final zero
  pub push_string : State → List ℕ → State
  -- `lua_pcall(L, nargs, 0, 1)`: the status and the state after it
  pub pcall : State → ℕ → ℕ × State
  -- `luaL_ref(L, LUA_REGISTRYINDEX)`
  pub ref : State → ℤ × State
  pub raw_geti_stack : (l : State) (r : ℤ) → stack (raw_geti l r) ≡ registry l r ∷ stack l
  pub push_string_stack : (l : State) (s : List ℕ) → stack (push_string l s) ≡ of_string s ∷ stack l
  -- The function and its arguments are removed; an error leaves one value, the message.
  pub pcall_done :
      (l : State) (n : ℕ)
      → n + 1 ≤ length (stack l)
      → (pcall l n).0 ≡ 0
      → stack (pcall l n).1 ≡ drop (n + 1) (stack l)
  pub pcall_error :
      (l : State) (n : ℕ)
      → n + 1 ≤ length (stack l)
      → (pcall l n).0 ≢ 0
      → (v : Value) × (stack (pcall l n).1 ≡ v ∷ drop (n + 1) (stack l))
  -- `luaL_ref` pops a value and stores it under the number that it returns.
  pub ref_stack :
      (l : State) (v : Value) (vs : List Value) → stack l ≡ v ∷ vs → stack (ref l).1 ≡ vs
  pub ref_registry :
      (l : State) (v : Value) (vs : List Value)
      → stack l ≡ v ∷ vs
      → registry (ref l).1 (ref l).0 ≡ v
