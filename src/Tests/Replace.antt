-- ===== src/Tests/Replace.antt =====
-- `gsub` and the iterator of `gmatch`, run on small strings in the classes of ASCII.
use lua_engine.Base.{ℕ, zero, suc, ◌+◌, ◌≤◌, ◌≡◌, refl, none, some, List, [], ◌∷◌, length, arith}
use lua_engine.Base.Int.{pos}
use lua_engine.Lua.Classes.{ok}
use lua_engine.Lua.Classes.Reads.{Runs}
use lua_engine.Lua.Find.{string}
use lua_engine.Lua.Replace.{Replacement, text, function, reply, keep, limit, str_gsub, gmatch_aux}
use lua_engine.Lua.Replace.Values.{DigitsFrom}
use lua_engine.Lua.Replace.Whole.{whole_match, str_gsub-Runs, str_gsub-whole_match}
use lua_engine.Lua.Replace.Iterator.{Advances, gmatch_aux-Advances}
use lua_engine.Tests.Pattern.{ascii, subject}

abbrev no_text : ℕ → List ℕ
no_text n = []

-- `(%d)`
abbrev digit : List ℕ
digit = b'(' ∷ b'%' ∷ b'd' ∷ b')' ∷ []

-- `<%1>`
abbrev bracketed : Replacement ℕ
bracketed = text (b'<' ∷ b'%' ∷ b'1' ∷ b'>' ∷ [])

-- A function that counts its calls and replaces the first match only.
abbrev once : Replacement ℕ
once = function (λ n vs. ok (elim n [ zero ↦ reply [] | suc m ↦ keep ], n + 1))

abbrev whole : Replacement ℕ
whole = whole_match

gsub_bracketed :
    str_gsub ascii no_text subject digit bracketed none 0
    ≡ ok (b'o' ∷ b'k' ∷ b'<' ∷ b'4' ∷ b'>' ∷ b'<' ∷ b'2' ∷ b'>' ∷ b'(' ∷ b'a' ∷ b')' ∷ [], 2, 0)
unfolding str_gsub
gsub_bracketed = refl

gsub_once :
    str_gsub ascii no_text subject digit once (some (pos 5)) 0
    ≡ ok (b'o' ∷ b'k' ∷ b'2' ∷ b'(' ∷ b'a' ∷ b')' ∷ [], 2, 2)
unfolding str_gsub
gsub_once = refl

gmatch_digit : gmatch_aux ascii subject digit 0 ≡ ok (some (3, string (b'4' ∷ []) ∷ []))
unfolding gmatch_aux
gmatch_digit = refl

ascii_digits : DigitsFrom ascii
ascii_digits d h = ground arith

str_gsub-Runs_example :
    Runs
      (λ r. (r.1 ≤ limit (length subject) (some (pos 5))) × (r.1 ≤ length subject + 1))
      (str_gsub ascii no_text subject digit bracketed (some (pos 5)) 0)
str_gsub-Runs_example =
    str_gsub-Runs ascii no_text subject digit bracketed (some (pos 5)) 0 ascii_digits tt

str_gsub-whole_match_example :
    Runs (λ r. r.0 ≡ subject) (str_gsub ascii no_text subject digit whole none 0)
str_gsub-whole_match_example = str_gsub-whole_match ascii no_text subject digit none 0 refl

gmatch_aux-Advances_example :
    Runs (Advances ascii subject digit 3) (gmatch_aux ascii subject digit 3)
gmatch_aux-Advances_example = gmatch_aux-Advances ascii subject digit 3
