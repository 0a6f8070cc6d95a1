-- ===== src/Tests/Pattern.antt =====
-- The pattern matcher and the search, run on small strings in the classes of ASCII.
use lua_engine.Base.{
  ℕ, ◌+◌, ◌≡◌, refl, Bool, true, false, ◌&&◌, ◌||◌, none, some, List, [], ◌∷◌, leb, ltb, ◌==◌,
  if◌then◌else◌, arith,
}
use lua_engine.Base.Int.{pos}
use lua_engine.Lua.Classes.{Ctype, ok, raised, ◌>>=◌, invalid_capture}
use lua_engine.Lua.Classes.Reads.{Runs}
use lua_engine.Lua.Pattern.{match}
use lua_engine.Lua.Pattern.Good.{Good}
use lua_engine.Lua.Pattern.Whole.{match-Good}
use lua_engine.Lua.Find.{
  integer, string, lmemfind, find_pattern, push_place, str_find, str_match, str_find_aux,
}
use lua_engine.Lua.Find.Plain.{lmemfind-first_at}
use lua_engine.Lua.Find.Bounds.{Answer, str_find-Answer}
use lua_engine.Lua.Find.Shortcut.{str_find_aux-find_pattern}

abbrev within : ℕ → ℕ → ℕ → Bool
within a b c = leb a c && leb c b

abbrev letter : ℕ → Bool
letter c = within 65 90 c || within 97 122 c

abbrev pub ascii : Ctype
ascii = record {
  is_alpha = letter;
  is_cntrl = λ c. ltb c 32 || c == 127;
  is_digit = within 48 57;
  is_lower = within 97 122;
  is_punct = λ c. within 33 47 c || within 58 64 c || within 91 96 c || within 123 126 c;
  is_space = λ c. within 9 13 c || c == 32;
  is_upper = within 65 90;
  is_alnum = λ c. letter c || within 48 57 c;
  is_xdigit = λ c. within 48 57 c || within 65 70 c || within 97 102 c;
  to_lower = λ c. if within 65 90 c then c + 32 else c;
}

abbrev pub subject : List ℕ
subject = b'o' ∷ b'k' ∷ b'4' ∷ b'2' ∷ b'(' ∷ b'a' ∷ b')' ∷ []

-- `k%d+`
abbrev digits : List ℕ
digits = b'k' ∷ b'%' ∷ b'd' ∷ b'+' ∷ []

-- `(%a)%d-(2)`
abbrev groups : List ℕ
groups = b'(' ∷ b'%' ∷ b'a' ∷ b')' ∷ b'%' ∷ b'd' ∷ b'-' ∷ b'(' ∷ b'2' ∷ b')' ∷ []

-- `%b()`
abbrev balanced : List ℕ
balanced = b'%' ∷ b'b' ∷ b'(' ∷ b')' ∷ []

abbrev plain_text : List ℕ
plain_text = b'4' ∷ b'2' ∷ []

find_digits : str_find ascii subject digits none false ≡ ok (integer 2 ∷ integer 4 ∷ [])
unfolding str_find_aux
find_digits = refl

match_groups :
    str_match ascii subject groups none ≡ ok (string (b'k' ∷ []) ∷ string (b'2' ∷ []) ∷ [])
unfolding str_find_aux
match_groups = refl

match_balanced :
    str_match ascii subject balanced (some (pos 3)) ≡ ok (string (b'(' ∷ b'a' ∷ b')' ∷ []) ∷ [])
unfolding str_find_aux
match_balanced = refl

-- A closing parenthesis alone is found by `find`, and is an error for `match`.
find_parenthesis : str_find ascii subject (b')' ∷ []) none false ≡ ok (integer 7 ∷ integer 7 ∷ [])
unfolding str_find_aux
find_parenthesis = refl

match_parenthesis : str_match ascii subject (b')' ∷ []) none ≡ raised invalid_capture
unfolding str_find_aux
match_parenthesis = refl

match-Good_example : Runs (Good subject 1 []) (match ascii subject groups 11 1 0 [])
match-Good_example =
    match-Good ascii subject groups 11 0 1 [] (omega arith) (omega arith) (omega arith)
      (tt, omega arith)

lmemfind-first_at_example : lmemfind subject plain_text ≡ ok (some 2)
lmemfind-first_at_example = lmemfind-first_at subject plain_text

str_find-Answer_example :
    Runs (Answer subject 0) (str_find_aux ascii subject groups true none false)
str_find-Answer_example = str_find-Answer ascii subject groups none false

str_find_aux-find_pattern_example :
    str_find_aux ascii subject plain_text true none false
    ≡ (find_pattern ascii subject plain_text 0 >>= push_place subject true)
str_find_aux-find_pattern_example =
    str_find_aux-find_pattern ascii subject plain_text none false (refl, (refl, tt))
