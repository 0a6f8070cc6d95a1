-- ===== src/Main/Arguments.antt =====
-- luaEngine/Main.cpp: the arguments that are handed on, and the room that they need.
use lua_engine.Base.{
  ℕ, ◌+◌, ◌<◌, ◌≡◌, sym, ◌∙◌, List, [], ◌∷◌, ◌++◌, length, arith, append_assoc, append-nil,
  length-append,
}
use lua_engine.Main.{lua_start, prog_args_size, join_args, main}

-- Each argument behind a blank.
abbrev pub spaced : List (List ℕ) → List ℕ
spaced [] = []
spaced (a ∷ rest) = a ++ (b' ' ∷ spaced rest)

join_args_lem : (acc : List ℕ) (rest : List (List ℕ)) → join_args acc rest ≡ acc ++ spaced rest
unfolding join_args
join_args_lem acc [] = sym (append-nil acc)
join_args_lem acc (a ∷ rest) =
    join_args_lem ((acc ++ a) ++ (b' ' ∷ [])) rest
    ∙ append_assoc (acc ++ a) (b' ' ∷ []) (spaced rest)
    ∙ append_assoc acc a (b' ' ∷ spaced rest)

-- When the program starts Lua, the text handed on is every argument in order with a blank behind it,
-- and with the final zero of a C string it is longer than the array that `strcat` writes it to.
pub main-lua_start :
    (args : List (List ℕ)) (text : List ℕ)
    → main args ≡ lua_start text
    → (text ≡ spaced args) × (prog_args_size < length text + 1)
unfolding main
main-lua_start [] text h = cc
main-lua_start (a ∷ rest) text h =
    ground (arith, join_args_lem [] (a ∷ rest), length-append a (b' ' ∷ spaced rest))
