-- ===== src/Lua/Strings.antt =====
-- lua515/lstrlib.c: the string functions on positions, on the string and the arguments that the Lua
-- API hands over. A string is its bytes. Memory is taken to suffice.
pub mod Slices
pub mod Reverse
pub mod Chars
use lua_engine.Base.{
  ℕ, zero, suc, ◌+◌, ◌-◌, ◌%◌, ◌^◌, Bool, not, ◌||◌, ltb, leb, if◌then◌else◌, Option, none, some,
  List, [], ◌∷◌, ◌++◌, length, take, drop, get_elem?,
}
use lua_engine.Base.Int.{cast_int, ℤ, pos, negsuc, pos_part, neg_part, signed32}

-- `posrelat`: for a negative `pos`, `pos + len + 1`, and 0 where that is negative.
abbrev pub posrelat : ℤ → ℕ → ℕ
posrelat (pos p) len = p
posrelat (negsuc n) len = (len + 1) - suc n

-- `luaL_optinteger`
abbrev pub optinteger : Option ℤ → ℤ → ℤ
optinteger none d = d
optinteger (some i) d = i

-- `str_sub`
unfoldable pub str_sub : List ℕ → ℤ → Option ℤ → List ℕ
str_sub s i j =
    let l = length s in
    let from = posrelat i l in
    let to = posrelat (optinteger j (negsuc 0)) l in
    let start = if ltb from 1 then 1 else from in
    let end = if ltb l to then l else to in
    if leb start end then take ((end - start) + 1) (drop (start - 1) s) else []

-- The `while` of `str_reverse`, on `l` and what has been added to the buffer.
unfoldable pub reverse_loop : List ℕ → ℕ → List ℕ → List ℕ
reverse_loop s zero b = b
reverse_loop s (suc l) b = elim (get_elem? s l) [
  | none ↦ b
  | some c ↦ reverse_loop s l (b ++ (c ∷ []))
]

-- `str_reverse`
unfoldable pub str_reverse : List ℕ → List ℕ
unfolding reverse_loop
str_reverse s = reverse_loop s (length s) []

-- The `for` of `str_byte`: the bytes at `i`, `i + 1` and so on, `n` of them.
unfoldable pub push_bytes : List ℕ → ℕ → ℕ → List ℕ
push_bytes s i zero = []
push_bytes s i (suc n) =
    let rest = push_bytes s (suc i) n in elim (get_elem? s i) [ none ↦ [] | some c ↦ c ∷ rest ]

-- `LUAI_MAXCSTACK`
abbrev pub max_c_stack : ℕ
max_c_stack = 8000

-- `lua_checkstack` with `top` values on the stack of the C function: whether there may be `size` more.
abbrev pub check_stack : ℕ → ℕ → Bool
check_stack top size = not (ltb max_c_stack size || ltb max_c_stack (top + size))

-- `str_byte`, called with `top` arguments: the values returned, or `none` for one of the two errors. `n`
-- is cut to an `int`.
unfoldable pub str_byte : ℕ → List ℕ → Option ℤ → Option ℤ → Option (List ℕ)
unfolding push_bytes
str_byte top s i j =
    let l = length s in
    let from = posrelat (optinteger i (pos 1)) l in
    let to = posrelat (optinteger j (pos from)) l in
    let posi = if leb from 0 then 1 else from in
    let pose = if ltb l to then l else to in
    let n = signed32 (((pose - posi) + 1) % 2 ^ 32) in
    if ltb pose posi
    then some []
    else (if leb (posi + pos_part n) (pose + neg_part n)
        then none
        else if check_stack top (pos_part n)
        then some (push_bytes s (posi - 1) (pos_part n))
        else none)

-- The `for` of `str_char`, on the arguments and what is in the buffer; `none` is the error.
unfoldable pub char_loop : List ℤ → List ℕ → Option (List ℕ)
char_loop [] b = some b
char_loop (i ∷ is) b = elim (cast_int i) [
  | pos c ↦ let rest = char_loop is (b ++ (c ∷ [])) in if ltb c 256 then rest else none
  | negsuc c ↦ none
]

-- `str_char`
unfoldable pub str_char : List ℤ → Option (List ℕ)
unfolding char_loop
str_char is = char_loop is []
