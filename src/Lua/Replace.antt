-- ===== src/Lua/Replace.antt =====
-- lua515/lstrlib.c: `string.gsub` and the iterator of `string.gmatch`.
pub mod Values
pub mod Loop
pub mod Whole
pub mod Iterator
use lua_engine.Base.{
  ℕ, zero, suc, ◌+◌, ◌-◌, ◌%◌, ◌^◌, Bool, true, false, not, ◌&&◌, ◌||◌, Option, none, some, List,
  [], ◌∷◌, ◌++◌, length, take, drop, get_elem?, ltb, leb, ◌==◌, if◌then◌else◌,
}
use lua_engine.Base.Int.{cast_int, ℤ, pos, negsuc, pos_part, signed32}
use lua_engine.Lua.Strings.{optinteger}
use lua_engine.Lua.Classes.{
  invalid_capture_index, invalid_replacement, out_of_fuel, outside, Res, ok, raised, ◌>>=◌, Ctype,
  byte,
}
use lua_engine.Lua.Captures.{Captures}
use lua_engine.Lua.Pattern.{match}
use lua_engine.Lua.Find.{Pushed, nil, integer, string, push_capture, push_captures}

-- What a replacement function or a lookup returns: nil or false, a string or a number in its text, or
-- another value.
pub data Reply : Type 0 where
  keep other : Reply
  reply : List ℕ → Reply

-- The third argument of `gsub`: a string or a number in its text, a function or a table, with the state
-- `S` that Lua code may change.
pub data Replacement (S : Type 0) : Type 0 where
  text : List ℕ → Replacement S
  function : (S → List Pushed → Res (Reply × S)) → Replacement S
  table : (S → Pushed → Res (Reply × S)) → Replacement S

-- The bytes from `s` to `e`.
abbrev pub slice : List ℕ → ℕ → ℕ → List ℕ
slice src s e = take (e - s) (drop s src)

-- `push_onecapture`
unfoldable pub push_onecapture : List ℕ → Captures → ℕ → ℕ → ℕ → Res Pushed
unfolding push_capture
push_onecapture src caps i s e = elim (get_elem? caps i) [
  | none ↦ if i == 0 then ok (string (slice src s e)) else raised invalid_capture_index
  | some c ↦ push_capture src c.init c.len
]

-- `max_s` of `str_gsub`, for a subject of the length; a negative one is as good as 0.
abbrev pub limit : ℕ → Option ℤ → ℕ
limit srcl m = pos_part (cast_int (optinteger m (pos (srcl + 1))))

-- The parameters are `isdigit` and its like, and the text that Lua gives a number.
module _ (t : Ctype) (to_text : ℕ → List ℕ) (src : List ℕ) where
  -- `luaL_addvalue` of a capture.
  abbrev pub text_of : Pushed → List ℕ
  text_of nil = []
  text_of (integer n) = to_text n
  text_of (string xs) = xs

  -- What `add_s` adds for the byte behind an escape.
  unfoldable pub add_escape : Captures → ℕ → ℕ → ℕ → List ℕ → Res (List ℕ)
  unfolding push_onecapture
  add_escape caps s e d b =
      let group = (do v ← push_onecapture src caps (d - b'1') s e; ok (b ++ text_of v)) in
      if not (t.is_digit d)
      then ok (b ++ (d ∷ []))
      else if d == b'0'
      then ok (b ++ slice src s e)
      else if ltb d b'1'
      then raised outside
      else group

  -- The `for` of `add_s`, with the rest of `news`; behind its end there is a zero.
  unfoldable pub add_s : Captures → ℕ → ℕ → List ℕ → List ℕ → Res (List ℕ)
  unfolding add_escape
  add_s caps s e [] b = ok b
  add_s caps s e (c ∷ []) b = if c == b'%' then add_escape caps s e 0 b else ok (b ++ (c ∷ []))
  add_s caps s e (c ∷ d ∷ news) b =
      let escaped = add_escape caps s e d b >>= add_s caps s e news in
      let plain = add_s caps s e (d ∷ news) (b ++ (c ∷ [])) in if c == b'%' then escaped else plain

  -- The end of `add_value`.
  abbrev pub add_reply : {S : Type 0} → ℕ → ℕ → List ℕ → Reply × S → Res (List ℕ × S)
  add_reply s e b (keep, st) = ok (b ++ slice src s e, st)
  add_reply s e b (reply xs, st) = ok (b ++ xs, st)
  add_reply s e b (other, st) = raised invalid_replacement

  -- `add_value`
  unfoldable pub add_value :
      {S : Type 0} → Replacement S → Captures → ℕ → ℕ → List ℕ → S → Res (List ℕ × S)
  unfolding add_s push_captures push_onecapture
  add_value (text news) caps s e b st = do b' ← add_s caps s e news b; ok (b', st)
  add_value (function f) caps s e b st = do
    vs ← push_captures src caps (some (s, e))
    f st vs >>= add_reply s e b
  add_value (table f) caps s e b st = do
    v ← push_onecapture src caps 0 s e
    f st v >>= add_reply s e b

  module _ {S : Type 0} (pat : List ℕ) (news : Replacement S) (anchor : Bool) (p max_s : ℕ) where
    -- What is left to do at a place of the subject, with the count, the buffer and the state of Lua.
    abbrev pub Rounds : Type 0
    Rounds = ℕ → ℕ → List ℕ → S → Res (List ℕ × ℕ × S)

    -- After the `while` of `str_gsub`.
    abbrev pub finish : Rounds
    finish s n b st = ok (b ++ drop s src, n, st)

    -- The end of a round; `loop` has the further ones.
    abbrev pub again : Rounds → Rounds
    again loop s n b st = if anchor then finish s n b st else loop s n b st

    -- A byte of the subject is copied.
    unfoldable pub copy : Rounds → Rounds
    copy loop s n b st = elim (get_elem? src s) [
      | none ↦ finish s n b st
      | some c ↦ again loop (s + 1) n (b ++ (c ∷ [])) st
    ]

    -- What a round does with the place that `match` returned.
    unfoldable pub substitute : Rounds → Option ℕ → Captures → Rounds
    unfolding add_value copy
    substitute loop none caps s n b st = copy loop s n b st
    substitute loop (some e) caps s n b st = do
      added ← add_value news caps s e b st
      if ltb s e then again loop e (n + 1) added.0 added.1 else copy loop s (n + 1) added.0 added.1

    -- The `while` of `str_gsub`.
    unfoldable pub gsub_loop : ℕ → Rounds
    unfolding match substitute
    gsub_loop zero s n b st = raised out_of_fuel
    gsub_loop (suc k) s n b st =
        let one = (do
          r ← match t src pat (suc (length pat)) s p []
          substitute (gsub_loop k) r.0 r.1 s n b st) in
        if ltb n max_s then one else finish s n b st

  -- `str_gsub`: the text, the number of substitutions and the state.
  unfoldable pub str_gsub :
      {S : Type 0} → List ℕ → Replacement S → Option ℤ → S → Res (List ℕ × ℕ × S)
  unfolding gsub_loop
  str_gsub pat news m st = do
    c ← byte pat 0
    let anchor = c == b'^'
    gsub_loop pat news anchor (if anchor then 1 else 0) (limit (length src) m) (suc (length src)) 0
        0 [] st

module _ (t : Ctype) (src pat : List ℕ) where
  -- The `for` of `gmatch_aux`: the index for the next call, and the values.
  unfoldable pub gmatch_loop : ℕ → ℕ → Res (Option (ℕ × List Pushed))
  unfolding match push_captures
  gmatch_loop zero s = raised out_of_fuel
  gmatch_loop (suc k) s =
      let one = (do
        r ← match t src pat (suc (length pat)) s 0 []
        let next = gmatch_loop k (s + 1)
        elim r.0 [
          | none ↦ next
          | some e ↦ (do
            vs ← push_captures src r.1 (some (s, e))
            ok (some ((if e == s then e + 1 else e), vs)))
        ]) in
      if leb s (length src) then one else ok none

  -- `gmatch_aux`, on its third upvalue.
  unfoldable pub gmatch_aux : ℕ → Res (Option (ℕ × List Pushed))
  unfolding gmatch_loop
  gmatch_aux s = gmatch_loop (suc (suc (length src))) s
