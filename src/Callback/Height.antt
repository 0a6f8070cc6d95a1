-- ===== src/Callback/Height.antt =====
-- luaEngine/LuaStart.cpp: what stands on the Lua stack when a callback is called, and what a callback leaves there.
use lua_engine.Base.{
  ℕ, ◌+◌, ◌≡◌, refl, ap, ap₂, ◌∙◌, List, [], ◌∷◌, ◌==◌, if◌then◌else◌, length, arith, length-drop,
}
use lua_engine.Codec.{MessageQueue}
use lua_engine.Callback.Api.{LuaApi}
use lua_engine.Callback.{
  Callbacks, c_str, set_message_callback, push_message_call, on_message, hand_messages,
}
use native.Mathlib.Decide.{ℕ_discrete}

module _ (api : LuaApi) where
  open api use {State, Value, stack, registry, of_string, pcall}

  push_message_call_lem :
      (cb : Callbacks) (l : State) (tm msg : List ℕ)
      → stack (push_message_call api cb l tm msg)
        ≡ of_string msg ∷ of_string tm ∷ registry l cb.message ∷ stack l
  unfolding push_message_call
  push_message_call_lem cb l tm msg =
      api.push_string_stack _ msg
      ∙ ap (λ vs. of_string msg ∷ vs)
          (api.push_string_stack _ tm
            ∙ ap (λ vs. of_string tm ∷ vs) (api.raw_geti_stack l cb.message))

  -- With the function `f` on top of the stack, `setMessageCallback` takes it off, and from the state
  -- that it leaves `onMessage` is the `lua_pcall` with two arguments of a state that has `f`, the time
  -- and the message on top of the stack, in this order.
  pub set_message_callback-on_message :
      (cb : Callbacks) (l : State) (f : Value) (vs : List Value) (tm msg : List ℕ)
      → stack l ≡ f ∷ vs
      → (stack (set_message_callback api l cb).0 ≡ vs)
        × ((s : State) × (stack s ≡ of_string msg ∷ of_string tm ∷ f ∷ vs)
            × (on_message api
                  (set_message_callback api l cb).1
                  (set_message_callback api l cb).0
                  tm
                  msg
                ≡ pcall s 2))
  unfolding set_message_callback on_message
  set_message_callback-on_message cb l f vs tm msg h = (
    api.ref_stack l f vs h,
    (
      push_message_call api (record cb { message = (api.ref l).0 }) (api.ref l).1 tm msg,
      push_message_call_lem (record cb { message = (api.ref l).0 }) (api.ref l).1 tm msg
          ∙ ap₂ (λ (g : Value) gs. of_string msg ∷ of_string tm ∷ g ∷ gs)
              (api.ref_registry l f vs h) (api.ref_stack l f vs h),
      refl,
    ),
  )

  -- A call removes the function and its `n` arguments, and a failing one leaves the message.
  pcall_height :
      (l : State) (n h : ℕ)
      → length (stack l) ≡ h + (n + 1)
      → length (stack (pcall l n).1) ≡ h + (if (pcall l n).0 == 0 then 0 else 1)
  pcall_height l n h e = elim (ℕ_discrete (pcall l n).0 0) [
    | yes ok ↦ rw (ok) (
        omega
          (arith, ap length (api.pcall_done l n (omega arith) ok), length-drop (n + 1) (stack l)))
    | no failed ↦
        let (v, left) = api.pcall_error l n (omega arith) failed in
        ground (arith, ap length left, length-drop (n + 1) (stack l))
  ]

  on_message_height :
      (cb : Callbacks) (l : State) (tm msg : List ℕ)
      → length (stack (on_message api cb l tm msg).1)
        ≡ length (stack l) + (if (on_message api cb l tm msg).0 == 0 then 0 else 1)
  unfolding on_message
  on_message_height cb l tm msg =
      pcall_height (push_message_call api cb l tm msg) 2 (length (stack l))
        (ap length (push_message_call_lem cb l tm msg) ∙ omega arith)

  -- Each callback that fails leaves a value on the stack, and none that succeeds does: the height
  -- grows by exactly the number of failures.
  pub hand_messages_height :
      {Conn Time : Type 0} (show : Time → List ℕ) (cb : Callbacks)
      (ms : List (MessageQueue Conn Time)) (l : State)
      → length (stack (hand_messages api show cb ms l).1)
        ≡ length (stack l) + (hand_messages api show cb ms l).0
  unfolding hand_messages
  hand_messages_height show cb [] l = omega arith
  hand_messages_height show cb (m ∷ ms) l =
      let l' = on_message api cb l (show m.timestamp) (c_str m.message) in
      ground (
        arith,
        on_message_height cb l (show m.timestamp) (c_str m.message),
        hand_messages_height show cb ms l'.1,
      )
