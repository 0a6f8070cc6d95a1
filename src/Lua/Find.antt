-- ===== src/Lua/Find.antt =====
-- lua515/lstrlib.c: `string.find` and `string.match`, on the arguments that the Lua API hands over. The
-- values pushed are the result.
pub mod Plain
pub mod Bounds
pub mod Literal
pub mod Shortcut
use lua_engine.Base.{
  ℕ, zero, suc, ◌+◌, ◌-◌, Bool, true, false, not, ◌&&◌, ◌||◌, Option, none, some, List, [], ◌∷◌,
  ◌++◌, length, take, drop, get_elem?, ltb, leb, ◌==◌, if◌then◌else◌,
}
use lua_engine.Base.Int.{ℤ, pos}
use lua_engine.Lua.Strings.{posrelat, optinteger}
use lua_engine.Lua.Classes.{
  invalid_capture_index, unfinished_capture, out_of_fuel, outside, Res, ok, raised, ◌>>=◌, Ctype,
  byte,
}
use lua_engine.Lua.Captures.{CapLen, unfinished, position, closed, Capture, Captures, same_bytes}
use lua_engine.Lua.Pattern.{match}

-- A value that is pushed.
pub data Pushed : Type 0 where
  nil : Pushed
  integer : ℕ → Pushed
  string : List ℕ → Pushed

-- `memchr` for a byte in the first `n` of `xs`: its index.
abbrev pub memchr : List ℕ → ℕ → ℕ → Option ℕ
memchr xs c zero = none
memchr [] c (suc n) = none
memchr (x ∷ xs) c (suc n) =
    let rest = memchr xs c n in
    if x == c then some 0 else elim rest [ none ↦ none | some i ↦ some (suc i) ]

-- The `while` of `lmemfind`: `at` is where `s1` has got to, `l1` how many starts are left, and `c` and
-- `cs` are the first byte of what is looked for and the others.
unfoldable pub find_loop : ℕ → List ℕ → ℕ → ℕ → List ℕ → ℕ → Res (Option ℕ)
find_loop zero s1 l1 c cs at = raised out_of_fuel
find_loop (suc n) s1 l1 c cs at = elim (memchr s1 c l1) [
  | none ↦ ok none
  | some i ↦
      let rest = drop (suc i) s1 in
      let again = find_loop n rest (l1 - suc i) c cs (at + suc i) in
      if same_bytes (take (length cs) rest) cs then ok (some (at + i)) else again
]

-- `lmemfind`: the index of what is found.
unfoldable pub lmemfind : List ℕ → List ℕ → Res (Option ℕ)
unfolding find_loop
lmemfind s1 [] = ok (some 0)
lmemfind s1 (c ∷ cs) =
    let found = find_loop (suc (length s1)) s1 (length s1 - length cs) c cs 0 in
    if ltb (length s1) (suc (length cs)) then ok none else found

-- A byte of `SPECIALS`.
abbrev pub is_special : ℕ → Bool
is_special c =
    (c == b'^')
    || (c == b'$')
    || (c == b'*')
    || (c == b'+')
    || (c == b'?')
    || (c == b'.')
    || (c == b'(')
    || (c == b'[')
    || (c == b'%')
    || (c == b'-')

-- `strpbrk(p, SPECIALS) == NULL`; `strpbrk` stops at a zero.
abbrev pub no_specials : List ℕ → Bool
no_specials [] = true
no_specials (c ∷ cs) = if c == 0 then true else not (is_special c) && no_specials cs

-- `push_onecapture` of a capture.
unfoldable pub push_capture : List ℕ → ℕ → CapLen → Res Pushed
push_capture src i unfinished = raised unfinished_capture
push_capture src i position = ok (integer (i + 1))
push_capture src i (closed n) =
    if leb (i + n) (length src) then ok (string (take n (drop i src))) else raised outside

-- The `for` of `push_captures`, on the captures that there are.
unfoldable pub push_all : List ℕ → Captures → Res (List Pushed)
unfolding push_capture
push_all src [] = ok []
push_all src (c ∷ caps) = do v ← push_capture src c.init c.len; vs ← push_all src caps; ok (v ∷ vs)

-- `push_captures`: `whole` is the match from `s` to `e`, or none where `s` is `NULL`.
unfoldable pub push_captures : List ℕ → Captures → Option (ℕ × ℕ) → Res (List Pushed)
unfolding push_all
push_captures src [] none = ok []
push_captures src [] (some (s, e)) = ok (string (take (e - s) (drop s src)) ∷ [])
push_captures src (c ∷ caps) whole = push_all src (c ∷ caps)

-- A start, an end and the captures of a match.
abbrev pub Place : Type 0
Place = ℕ × ℕ × Captures

-- The values for a plain search from `init` that found `s2`.
abbrev pub push_plain : List ℕ → ℕ → Option ℕ → List Pushed
push_plain pat init none = nil ∷ []
push_plain pat init (some i) = integer (init + i + 1) ∷ integer (init + i + length pat) ∷ []

module _ (src : List ℕ) where
  -- The values for a match.
  unfoldable pub push_place : Bool → Option Place → Res (List Pushed)
  unfolding push_captures
  push_place find none = ok (nil ∷ [])
  push_place false (some (s, e, caps)) = push_captures src caps (some (s, e))
  push_place true (some (s, e, caps)) = do
    vs ← push_captures src caps none
    ok (integer (s + 1) ∷ integer e ∷ vs)

  -- `init` of `str_find_aux`
  abbrev pub find_start : Option ℤ → ℕ
  find_start i =
      let init = posrelat (optinteger i (pos 1)) (length src) - 1 in
      if ltb (length src) init then length src else init

module _ (t : Ctype) (src pat : List ℕ) where
  -- The `do`-`while` of `str_find_aux`, from `s1` on, with the pattern from `p` on.
  unfoldable pub search_loop : ℕ → Bool → ℕ → ℕ → Res (Option Place)
  unfolding match
  search_loop zero anchor p s1 = raised out_of_fuel
  search_loop (suc n) anchor p s1 = do
    r ← match t src pat (suc (length pat)) s1 p []
    let again = search_loop n anchor p (s1 + 1)
    elim r.0 [
      | some e ↦ ok (some (s1, e, r.1))
      | none ↦ if ltb s1 (length src) && not anchor then again else ok none
    ]

  -- The place that the pattern is matched at, from `init` on: the other branch of `str_find_aux`.
  unfoldable pub find_pattern : ℕ → Res (Option Place)
  unfolding search_loop
  find_pattern init = do
    c ← byte pat 0
    let anchor = c == b'^'
    search_loop (suc (length src)) anchor (if anchor then 1 else 0) init

  -- `str_find_aux`, with its fourth argument as `explicit`.
  unfoldable pub str_find_aux : Bool → Option ℤ → Bool → Res (List Pushed)
  unfolding lmemfind find_pattern push_place
  str_find_aux find i explicit =
      let init = find_start src i in
      let plain = (do s2 ← lmemfind (drop init src) pat; ok (push_plain pat init s2)) in
      let matching = (do place ← find_pattern init; push_place src find place) in
      if find && (explicit || no_specials pat) then plain else matching

  -- `str_find`
  abbrev pub str_find : Option ℤ → Bool → Res (List Pushed)
  str_find i explicit = str_find_aux true i explicit

  -- `str_match`
  abbrev pub str_match : Option ℤ → Res (List Pushed)
  str_match i = str_find_aux false i false
