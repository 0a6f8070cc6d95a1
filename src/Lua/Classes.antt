-- ===== src/Lua/Classes.antt =====
-- lua515/lstrlib.c: the items of a pattern that match one character. A pointer into the pattern or the
-- subject is an index; behind the last byte stands a zero, and a read further on is the error
-- `outside`, which no C code reports.
pub mod Reads
use lua_engine.Base.{
  ℕ, zero, suc, ◌+◌, ◌-◌, Bool, true, false, not, ◌&&◌, ◌||◌, Option, none, some, List, [], ◌∷◌,
  length, get_elem?, ltb, leb, ◌==◌, if◌then◌else◌,
}

-- The calls of `luaL_error`, a read outside of a string, and the end of the fuel.
pub data PatternError : Type 0 where
  ends_with_percent missing_bracket unbalanced : PatternError
  too_many_captures invalid_capture_index invalid_capture unfinished_capture : PatternError
  invalid_replacement : PatternError
  missing_frontier_set : PatternError
  outside out_of_fuel : PatternError

pub data Res (A : Type 0) : Type 0 where
  ok : A → Res A
  raised : PatternError → Res A

infixl 5 ◌>>=◌
abbrev pub ◌>>=◌ : {A B : Type 0} → Res A → (A → Res B) → Res B
ok a >>= f = f a
raised e >>= f = raised e

-- The classes of `ctype.h`, in the locale of the program.
pub record Ctype : Type 0 where
  pub is_alpha : ℕ → Bool
  pub is_cntrl : ℕ → Bool
  pub is_digit : ℕ → Bool
  pub is_lower : ℕ → Bool
  pub is_punct : ℕ → Bool
  pub is_space : ℕ → Bool
  pub is_upper : ℕ → Bool
  pub is_alnum : ℕ → Bool
  pub is_xdigit : ℕ → Bool
  pub to_lower : ℕ → ℕ

-- A read of a string and of the zero behind it.
abbrev pub byte : List ℕ → ℕ → Res ℕ
byte xs i = elim (get_elem? xs i) [
  | some c ↦ ok c
  | none ↦ if i == length xs then ok 0 else raised outside
]

module _ (pat : List ℕ) where
  -- The `do`-`while` of `classend`, up to the closing bracket.
  unfoldable pub class_loop : ℕ → ℕ → Res ℕ
  class_loop zero p = raised out_of_fuel
  class_loop (suc n) p = do
    c ← byte pat p
    let after_escape = do d ← byte pat (p + 1); ok (if d == 0 then p + 1 else p + 2)
    let step = if c == b'%' then after_escape else ok (p + 1)
    let further = do
      q ← step
      e ← byte pat q
      let again = class_loop n q
      if e == b']' then ok (q + 1) else again
    if c == 0 then raised missing_bracket else further

  -- `classend`. A round of the loop moves on, so as many rounds as there are bytes are enough.
  unfoldable pub classend : ℕ → Res ℕ
  unfolding class_loop
  classend p = do
    c ← byte pat p
    let escape = do d ← byte pat (p + 1); if d == 0 then raised ends_with_percent else ok (p + 2)
    let bracket = do
      d ← byte pat (p + 1)
      class_loop (suc (length pat)) (if d == b'^' then p + 2 else p + 1)
    if c == b'%' then escape else if c == b'[' then bracket else ok (p + 1)

-- The `switch` of `match_class`; `none` is its `default`.
abbrev pub class_test : Ctype → ℕ → ℕ → Option Bool
class_test t c l =
    if l == b'a'
    then some (t.is_alpha c)
    else if l == b'c'
    then some (t.is_cntrl c)
    else if l == b'd'
    then some (t.is_digit c)
    else if l == b'l'
    then some (t.is_lower c)
    else if l == b'p'
    then some (t.is_punct c)
    else if l == b's'
    then some (t.is_space c)
    else if l == b'u'
    then some (t.is_upper c)
    else if l == b'w'
    then some (t.is_alnum c)
    else if l == b'x'
    then some (t.is_xdigit c)
    else if l == b'z'
    then some (c == 0)
    else none

-- `match_class`
unfoldable pub match_class : Ctype → ℕ → ℕ → Bool
match_class t c cl = elim (class_test t c (t.to_lower cl)) [
  | none ↦ cl == c
  | some res ↦ if t.is_lower cl then res else not res
]

module _ (t : Ctype) (pat : List ℕ) where
  -- The `while` of `matchbracketclass`, with the class ending at `ec`; `sig` is the answer when one of
  -- its parts matches.
  unfoldable pub bracket_loop : ℕ → ℕ → ℕ → ℕ → Bool → Res Bool
  unfolding match_class
  bracket_loop zero c p ec sig = raised out_of_fuel
  bracket_loop (suc n) c p ec sig =
      let one = (do
        let q = p + 1
        x ← byte pat q
        y ← byte pat (q + 1)
        let escaped =
            let again = bracket_loop n c (q + 1) ec sig in
            if match_class t c y then ok sig else again
        let range = do
          z ← byte pat (q + 2)
          let again = bracket_loop n c (q + 2) ec sig
          if leb x c && leb c z then ok sig else again
        let single = let again = bracket_loop n c q ec sig in if x == c then ok sig else again
        if x == b'%' then escaped else if y == b'-' && ltb (q + 2) ec then range else single) in
      if ltb (p + 1) ec then one else ok (not sig)

  -- `matchbracketclass`
  unfoldable pub matchbracketclass : ℕ → ℕ → ℕ → Res Bool
  unfolding bracket_loop
  matchbracketclass c p ec = do
    d ← byte pat (p + 1)
    if d == b'^'
        then bracket_loop (suc ec) c (p + 1) ec false
        else bracket_loop (suc ec) c p ec true

  -- `singlematch`
  unfoldable pub singlematch : ℕ → ℕ → ℕ → Res Bool
  unfolding match_class matchbracketclass
  singlematch c p ep = do
    x ← byte pat p
    let class = do y ← byte pat (p + 1); ok (match_class t c y)
    if x == b'.'
        then ok true
        else if x == b'%'
        then class
        else if x == b'['
        then matchbracketclass c p (ep - 1)
        else ok (x == c)
