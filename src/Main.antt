-- ===== src/Main.antt =====
-- luaEngine/Main.cpp: the start of the server program. A program argument is its bytes.
pub mod Arguments
use lua_engine.Base.{
  ℕ, zero, suc, ◌+◌, Bool, true, false, ◌&&◌, ◌||◌, List, [], ◌∷◌, ◌++◌, ◌==◌, if◌then◌else◌,
  length,
}

-- What `main` comes to. `null_argument` is the call of `strcmp` on the null pointer `argv[argc]`.
pub data Outcome : Type 0 where
  null_argument : Outcome
  help : Outcome
  lua_start : (prog_args : List ℕ) → Outcome

-- `sizeof AppProgArgs`: the array is declared with the initialiser "" and no size.
abbrev pub prog_args_size : ℕ
prog_args_size = 1

-- `strcmp(a, b) == 0`
abbrev pub str_eq : List ℕ → List ℕ → Bool
str_eq [] [] = true
str_eq (a ∷ rest) (b ∷ bs) = (a == b) && str_eq rest bs
str_eq _ _ = false

-- "--help" and "/?"
abbrev pub help_flag : List ℕ
help_flag = b'-' ∷ b'-' ∷ b'h' ∷ b'e' ∷ b'l' ∷ b'p' ∷ []

abbrev pub question_flag : List ℕ
question_flag = b'/' ∷ b'?' ∷ []

-- The `for` over `argv`: two `strcat` a round.
unfoldable pub join_args : List ℕ → List (List ℕ) → List ℕ
join_args acc [] = acc
join_args acc (a ∷ rest) = join_args ((acc ++ a) ++ (b' ' ∷ [])) rest

-- `main`, over the arguments behind the program's name.
unfoldable pub main : List (List ℕ) → Outcome
unfolding join_args
main [] = null_argument
main (a ∷ rest) =
    if str_eq a help_flag || str_eq a question_flag
    then help
    else lua_start (join_args [] (a ∷ rest))
