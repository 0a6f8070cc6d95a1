-- ===== src/Lua/Captures.antt =====
-- lua515/lstrlib.c: the captures of the `MatchState`, and the items of a pattern that need no further
-- match: a balanced text and a capture matched again.
use lua_engine.Base.{
  ℕ, zero, suc, ◌+◌, ◌-◌, Bool, true, false, ◌&&◌, Option, none, some, List, [], ◌∷◌, length, take,
  drop, get_elem?, ltb, leb, ◌==◌, if◌then◌else◌,
}
use lua_engine.Lua.Classes.{
  invalid_capture_index, invalid_capture, unbalanced, outside, out_of_fuel, Res, ok, raised, ◌>>=◌,
  byte,
}

-- `CAP_UNFINISHED`, `CAP_POSITION` and a length.
pub data CapLen : Type 0 where
  unfinished position : CapLen
  closed : ℕ → CapLen

pub record Capture : Type 0 where
  pub init : ℕ
  pub len : CapLen

-- The array `capture`, up to `level`.
abbrev pub Captures : Type 0
Captures = List Capture

abbrev pub is_unfinished : CapLen → Bool
is_unfinished unfinished = true
is_unfinished _ = false

-- An assignment to the `len` of a capture.
abbrev pub set_len : Captures → ℕ → CapLen → Captures
set_len [] l n = []
set_len (c ∷ caps) zero n = record { init = c.init; len = n } ∷ caps
set_len (c ∷ caps) (suc l) n = c ∷ set_len caps l n

-- `check_capture`, with the capture itself as its result.
unfoldable pub check_capture : Captures → ℕ → Res Capture
check_capture caps l =
    let found : Res Capture = elim (get_elem? caps (l - b'1')) [
      | none ↦ raised invalid_capture_index
      | some c ↦ if is_unfinished c.len then raised invalid_capture_index else ok c
    ] in
    if ltb l b'1' then raised invalid_capture_index else found

-- The `for` of `capture_to_close`; the result has its index.
unfoldable pub close_loop : Captures → ℕ → Res (ℕ × Capture)
close_loop caps zero = raised invalid_capture
close_loop caps (suc level) =
    let below = close_loop caps level in
    elim (get_elem? caps level) [
      | none ↦ raised outside
      | some c ↦ if is_unfinished c.len then ok (level, c) else below
    ]

-- `capture_to_close`
unfoldable pub capture_to_close : Captures → Res (ℕ × Capture)
unfolding close_loop
capture_to_close caps = close_loop caps (length caps)

-- Equality of the bytes that `memcmp` compares.
abbrev pub same_bytes : List ℕ → List ℕ → Bool
same_bytes [] [] = true
same_bytes (x ∷ xs) (y ∷ ys) = (x == y) && same_bytes xs ys
same_bytes _ _ = false

-- `memcmp` of `n` bytes of the subject at `i` and at `j`.
unfoldable pub memcmp_at : List ℕ → ℕ → ℕ → ℕ → Res Bool
memcmp_at src i j n =
    if leb (i + n) (length src) && leb (j + n) (length src)
    then ok (same_bytes (take n (drop i src)) (take n (drop j src)))
    else raised outside

module _ (src : List ℕ) where
  -- The `while` of `matchbalance`, after the byte at `s` was counted.
  unfoldable pub balance_loop : ℕ → ℕ → ℕ → ℕ → ℕ → Res (Option ℕ)
  balance_loop zero b e cont s = raised out_of_fuel
  balance_loop (suc n) b e cont s =
      let one = (do
        c ← byte src (s + 1)
        let closes =
            let again = balance_loop n b e (cont - 1) (s + 1) in
            if cont - 1 == 0 then ok (some (s + 1 + 1)) else again
        let opens = balance_loop n b e (cont + 1) (s + 1)
        let other = balance_loop n b e cont (s + 1)
        if c == e then closes else if c == b then opens else other) in
      if ltb (s + 1) (length src) then one else ok none

  -- `matchbalance`
  unfoldable pub matchbalance : List ℕ → ℕ → ℕ → Res (Option ℕ)
  unfolding balance_loop
  matchbalance pat s p = do
    b ← byte pat p
    e ← if b == 0 then raised unbalanced else byte pat (p + 1)
    c ← if e == 0 then raised unbalanced else byte src s
    let inside = balance_loop (suc (length src)) b e 1 s
    if c == b then inside else ok none

  -- The test of `match_capture`; a position, as a `size_t`, is longer than any string.
  unfoldable pub compare_capture : ℕ → ℕ → CapLen → Res (Option ℕ)
  unfolding memcmp_at
  compare_capture s i unfinished = ok none
  compare_capture s i position = ok none
  compare_capture s i (closed n) =
      let compared = (do
        same_text ← memcmp_at src i s n
        ok (if same_text then some (s + n) else none)) in
      if leb n (length src - s) then compared else ok none

  -- `match_capture`
  unfoldable pub match_capture : Captures → ℕ → ℕ → Res (Option ℕ)
  unfolding check_capture compare_capture
  match_capture caps s l = do c ← check_capture caps l; compare_capture s c.init c.len

-- `LUA_MAXCAPTURES`
abbrev pub max_captures : ℕ
max_captures = 32
