-- ===== src/Lua/Pattern.antt =====
-- lua515/lstrlib.c: `match` and its helpers, on the captures of the `MatchState`. A call of `match` in a
-- helper is its argument `rec`; `goto init` is such a call too.
pub mod Good
pub mod Levels
pub mod Items
pub mod Frontier
pub mod Whole
use lua_engine.Base.{
  ℕ, zero, suc, ◌+◌, ◌-◌, Bool, true, false, not, ◌&&◌, ◌||◌, Option, none, some, List, [], ◌∷◌,
  ◌++◌, length, take, drop, get_elem?, ltb, leb, ◌==◌, if◌then◌else◌,
}
use lua_engine.Lua.Classes.{
  invalid_capture_index, invalid_capture, too_many_captures, unbalanced, outside, out_of_fuel,
  missing_frontier_set, Res, ok, raised, ◌>>=◌, Ctype, byte, classend, matchbracketclass,
  singlematch,
}
use lua_engine.Lua.Captures.{
  CapLen, unfinished, position, closed, Capture, Captures, is_unfinished, set_len, check_capture,
  close_loop, capture_to_close, same_bytes, memcmp_at, balance_loop, matchbalance, compare_capture,
  match_capture, max_captures,
}

-- What `match` returns, `none` for `NULL`, and the captures it leaves.
abbrev pub Found : Type 0
Found = Option ℕ × Captures

abbrev pub Matcher : Type 0
Matcher = ℕ → ℕ → Captures → Res Found

-- A call of `match` and what is done when it returns `NULL`.
abbrev pub or_else : Res Found → (Captures → Res Found) → Res Found
or_else m k = m >>= (λ r. elim r.0 [ none ↦ k r.1 | some e ↦ ok r ])

abbrev pub fail : Captures → Res Found
fail caps = ok (none, caps)

module _ (rec : Matcher) where
  -- `start_capture`
  unfoldable pub start_capture : ℕ → ℕ → CapLen → Captures → Res Found
  start_capture s p what caps =
      let started =
        or_else (rec s p (caps ++ (record { init = s; len = what } ∷ [])))
          (λ caps'. fail (take (length caps' - 1) caps')) in
      if leb max_captures (length caps) then raised too_many_captures else started

  -- `end_capture`
  unfoldable pub end_capture : ℕ → ℕ → Captures → Res Found
  unfolding capture_to_close
  end_capture s p caps = do
    (l, c) ← capture_to_close caps
    or_else (rec s p (set_len caps l (closed (s - c.init))))
        (λ caps'. fail (set_len caps' l unfinished))

  -- The second `while` of `max_expand`, with `i` repetitions left to try.
  unfoldable pub back_loop : ℕ → ℕ → ℕ → Captures → Res Found
  back_loop s p zero caps = rec s p caps
  back_loop s p (suc i) caps = or_else (rec (s + suc i) p caps) (λ caps'. back_loop s p i caps')

  -- The rest of a pattern after an item that left `NULL` or a place.
  abbrev pub go_on : ℕ → Captures → Option ℕ → Res Found
  go_on p caps none = fail caps
  go_on p caps (some s) = rec s p caps

module _ (t : Ctype) (src pat : List ℕ) where
  -- `s<ms->src_end && singlematch(uchar(*s), p, ep)`
  unfoldable pub single_at : ℕ → ℕ → ℕ → Res Bool
  unfolding singlematch
  single_at s p ep =
      let tested = (do c ← byte src s; singlematch t pat c p ep) in
      if ltb s (length src) then tested else ok false

  -- The first `while` of `max_expand`.
  unfoldable pub count_loop : ℕ → ℕ → ℕ → ℕ → ℕ → Res ℕ
  unfolding single_at
  count_loop zero s p ep i = raised out_of_fuel
  count_loop (suc n) s p ep i = do
    m ← single_at (s + i) p ep
    let again = count_loop n s p ep (i + 1)
    if m then again else ok i

  module _ (rec : Matcher) where
    -- `max_expand`. A round of its first loop takes a byte of the subject.
    unfoldable pub max_expand : ℕ → ℕ → ℕ → Captures → Res Found
    unfolding count_loop back_loop
    max_expand s p ep caps = do
      i ← count_loop (suc (length src)) s p ep 0
      back_loop rec s (ep + 1) i caps

    -- The `for` of `min_expand`.
    unfoldable pub min_loop : ℕ → ℕ → ℕ → ℕ → Captures → Res Found
    unfolding single_at
    min_loop zero s p ep caps = raised out_of_fuel
    min_loop (suc n) s p ep caps = or_else (rec s (ep + 1) caps) (λ caps'. do
      m ← single_at s p ep
      let again = min_loop n (s + 1) p ep caps'
      if m then again else fail caps')

    -- `min_expand`
    unfoldable pub min_expand : ℕ → ℕ → ℕ → Captures → Res Found
    unfolding min_loop
    min_expand s p ep caps = min_loop (suc (length src)) s p ep caps

    -- The frontier `%f`, with `p` behind it.
    unfoldable pub frontier : ℕ → ℕ → Captures → Res Found
    unfolding classend matchbracketclass
    frontier s p caps = do
      o ← byte pat p
      ep ← if o == b'[' then classend pat p else raised missing_frontier_set
      previous ← if s == 0 then ok 0 else byte src (s - 1)
      before ← matchbracketclass t pat previous p (ep - 1)
      let after = do
        c ← byte src s
        within ← matchbracketclass t pat c p (ep - 1)
        let next = rec s ep caps
        if within then next else fail caps
      if before then fail caps else after

    -- The `default` of `match`.
    unfoldable pub item : ℕ → ℕ → Captures → Res Found
    unfolding single_at max_expand min_expand classend
    item s p caps = do
      ep ← classend pat p
      m ← single_at s p ep
      e ← byte pat ep
      let optional =
          or_else (if m then rec (s + 1) (ep + 1) caps else fail caps)
            (λ caps'. rec s (ep + 1) caps')
      let some_times = max_expand s p ep caps
      let once_more = if m then max_expand (s + 1) p ep caps else fail caps
      let few_times = min_expand s p ep caps
      let once = if m then rec (s + 1) ep caps else fail caps
      if e == b'?'
          then optional
          else if e == b'*'
          then some_times
          else if e == b'+'
          then once_more
          else if e == b'-'
          then few_times
          else once

    -- The `case` of `L_ESC`, with `p` at the escape.
    unfoldable pub escape : ℕ → ℕ → Captures → Res Found
    unfolding matchbalance match_capture frontier item
    escape s p caps = do
      d ← byte pat (p + 1)
      let balance = do r ← matchbalance src pat s (p + 2); go_on rec (p + 4) caps r
      let edge = frontier s (p + 2) caps
      let back_reference = do r ← match_capture src caps s d; go_on rec (p + 2) caps r
      let plain = item s p caps
      if d == b'b'
          then balance
          else if d == b'f'
          then edge
          else if t.is_digit d
          then back_reference
          else plain

    -- The `switch` of `match`.
    unfoldable pub match_body : ℕ → ℕ → Captures → Res Found
    unfolding start_capture end_capture escape item
    match_body s p caps = do
      c ← byte pat p
      let start = do
        d ← byte pat (p + 1)
        if d == b')'
            then start_capture rec s (p + 2) position caps
            else start_capture rec s (p + 1) unfinished caps
      let end = end_capture rec s (p + 1) caps
      let escaped = escape s p caps
      let plain = item s p caps
      let last = do
        d ← byte pat (p + 1)
        if d == 0 then ok (if s == length src then some s else none, caps) else plain
      if c == b'('
          then start
          else if c == b')'
          then end
          else if c == b'%'
          then escaped
          else if c == 0
          then ok (some s, caps)
          else if c == b'$'
          then last
          else plain

  -- `match`. Every call of it in its body is further on in the pattern.
  unfoldable pub match : ℕ → Matcher
  unfolding match_body
  match zero s p caps = raised out_of_fuel
  match (suc n) s p caps = match_body (match n) s p caps
