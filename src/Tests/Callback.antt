-- ===== src/Tests/Callback.antt =====
-- A Lua state in miniature: a stack and one registry entry, where a value is a number and calling an
-- odd one fails.
use lua_engine.Base.{
  ℕ, ◌+◌, ◌%◌, ◌≤◌, ◌≡◌, ◌≢◌, refl, List, [], ◌∷◌, length, drop, arith, ◌==◌, if◌then◌else◌, ap,
}
use lua_engine.Base.Int.{pos}
use lua_engine.Codec.{MessageQueue}
use lua_engine.Callback.{no_callbacks, set_message_callback, on_message, hand_messages}
use lua_engine.Callback.Api.{LuaApi}
use lua_engine.Callback.Height.{set_message_callback-on_message, hand_messages_height}

record Small : Type 0 where
  values : List ℕ
  entry : ℕ

top : List ℕ → ℕ
top [] = 0
top (v ∷ vs) = v

-- The function stands under its `n` arguments.
small_call : Small → ℕ → ℕ × Small
unfolding top
small_call l n =
    let f = top (drop n l.values) in
    let rest = drop (n + 1) l.values in
    (f % 2, record l { values = if f % 2 == 0 then rest else 99 ∷ rest })

small_done :
    (l : Small) (n : ℕ)
    → n + 1 ≤ length l.values
    → (small_call l n).0 ≡ 0
    → (small_call l n).1.values ≡ drop (n + 1) l.values
unfolding small_call
small_done l n h e = ground arith

small_error :
    (l : Small) (n : ℕ)
    → n + 1 ≤ length l.values
    → (small_call l n).0 ≢ 0
    → (v : ℕ) × ((small_call l n).1.values ≡ v ∷ drop (n + 1) l.values)
unfolding small_call
small_error l n h e = (99, ground arith)

small_ref_stack : (l : Small) (v : ℕ) (vs : List ℕ) → l.values ≡ v ∷ vs → drop 1 l.values ≡ vs
small_ref_stack l v vs e = ap (drop 1) e

small_ref_registry : (l : Small) (v : ℕ) (vs : List ℕ) → l.values ≡ v ∷ vs → top l.values ≡ v
unfolding top
small_ref_registry l v vs e = ap top e

abbrev small : LuaApi
small = record {
  State = Small;
  Value = ℕ;
  stack = λ l. l.values;
  registry = λ l r. l.entry;
  of_string = length;
  raw_geti = λ l r. record l { values = l.entry ∷ l.values };
  push_string = λ l s. record l { values = length s ∷ l.values };
  pcall = small_call;
  ref = λ l. (pos 3, record { values = drop 1 l.values; entry = top l.values });
  raw_geti_stack = λ l r. refl;
  push_string_stack = λ l s. refl;
  pcall_done = small_done;
  pcall_error = small_error;
  ref_stack = small_ref_stack;
  ref_registry = small_ref_registry;
}

abbrev registering : Small
registering = record { values = 42 ∷ 1 ∷ []; entry = 0 }

set_message_callback-on_message_example :
    ((set_message_callback small registering no_callbacks).0.values ≡ 1 ∷ [])
    × ((s : Small) × (s.values ≡ 0 ∷ 1 ∷ 42 ∷ 1 ∷ [])
        × (on_message small
              (set_message_callback small registering no_callbacks).1
              (set_message_callback small registering no_callbacks).0
              (b'a' ∷ [])
              []
            ≡ small_call s 2))
set_message_callback-on_message_example =
    set_message_callback-on_message small no_callbacks registering 42 (1 ∷ []) (b'a' ∷ []) [] refl

abbrev failing : Small
failing = record { values = []; entry = 7 }

abbrev one_message : List (MessageQueue ℕ ℕ)
one_message = record { conn = 1; message = b'x' ∷ []; timestamp = 0 } ∷ []

hand_messages_height_example :
    length (hand_messages small (λ (t : ℕ). []) no_callbacks one_message failing).1.values
    ≡ 0 + (hand_messages small (λ (t : ℕ). []) no_callbacks one_message failing).0
hand_messages_height_example =
    hand_messages_height small (λ (t : ℕ). []) no_callbacks one_message failing
