-- ===== src/Lua/Pattern/Good.antt =====
-- lua515/lstrlib.c: what a call of `match` leaves behind, and how that carries through a body.
use lua_engine.Base.{ℕ, ◌+◌, ◌≤◌, ◌<◌, ◌≡◌, Option, none, some, List, [], ◌∷◌, length, All, arith}
use lua_engine.Lua.Classes.{Res}
use lua_engine.Lua.Classes.Reads.{Runs, returns, raises}
use lua_engine.Lua.Captures.{CapLen, unfinished, position, closed, Capture, Captures, max_captures}
use lua_engine.Lua.Pattern.{Found, Matcher, or_else}

module _ (src : List ℕ) where
  -- A capture lies in the subject, and an open one begins at or before `s`.
  abbrev pub LiesIn : ℕ → ℕ → CapLen → Type 0
  LiesIn s i unfinished = i ≤ s
  LiesIn s i position = i ≤ length src
  LiesIn s i (closed n) = i + n ≤ length src

  abbrev pub Inside : ℕ → Capture → Type 0
  Inside s c = LiesIn s c.init c.len

  abbrev pub Fits : ℕ → Captures → Type 0
  Fits s caps = All (Inside s) caps × (length caps ≤ max_captures)

  -- A match ends in the subject, at or behind its start, with captures that fit; a failed one leaves the
  -- captures that it found.
  pub data Good (s : ℕ) (caps : Captures) : Found → Type 0 where
    failed : {caps' : Captures} → caps' ≡ caps → Good s caps (none, caps')
    matched :
        {e : ℕ} {caps' : Captures}
        → s ≤ e
        → e ≤ length src
        → Fits e caps'
        → Good s caps (some e, caps')

  -- A place that an item of a pattern ended at, if it matched.
  pub data Ahead (s : ℕ) : Option ℕ → Type 0 where
    nowhere : Ahead s none
    ahead : {e : ℕ} → s ≤ e → e ≤ length src → Ahead s (some e)

  -- The calls of `rec` behind `p`.
  abbrev pub Behaves : ℕ → Matcher → ℕ → Type 0
  Behaves bound rec p =
      (p' s : ℕ) (caps : Captures)
      → p < p'
      → p' ≤ bound
      → s ≤ length src
      → Fits s caps
      → Runs (Good s caps) (rec s p' caps)

  LiesIn-later : (s s' i : ℕ) (n : CapLen) → s ≤ s' → LiesIn s i n → LiesIn s' i n
  LiesIn-later s s' i unfinished h k = omega arith
  LiesIn-later s s' i position h k = k
  LiesIn-later s s' i (closed n) h k = k

  All-later : (s s' : ℕ) (caps : Captures) → s ≤ s' → All (Inside s) caps → All (Inside s') caps
  All-later s s' [] h k = tt
  All-later s s' (c ∷ caps) h k = (LiesIn-later s s' c.init c.len h k.0, All-later s s' caps h k.1)

  pub Fits-later : (s s' : ℕ) (caps : Captures) → s ≤ s' → Fits s caps → Fits s' caps
  Fits-later s s' caps h k = (All-later s s' caps h k.0, k.1)

  pub Ahead-earlier : (s s' : ℕ) (r : Option ℕ) → s ≤ s' → Ahead s' r → Ahead s r
  Ahead-earlier s s' none h nowhere = nowhere
  Ahead-earlier s s' (some e) h (ahead k l) = ahead (omega arith) l

  pub Good-earlier :
      (s s' : ℕ) (caps : Captures) (r : Found) → s ≤ s' → Good s' caps r → Good s caps r
  Good-earlier s s' caps r h (failed e) = failed e
  Good-earlier s s' caps r h (matched k l m) = matched (omega arith) l m

  pub Runs-or_else :
      (s s' : ℕ) (caps caps' : Captures) {m : Res Found} (k : Captures → Res Found)
      → s ≤ s'
      → Runs (Good s' caps') m
      → Runs (Good s caps) (k caps')
      → Runs (Good s caps) (or_else m k)
  Runs-or_else s s' caps caps' k h (raises e) b = raises e
  Runs-or_else s s' caps caps' k h (returns (failed e)) b = rw e b
  Runs-or_else s s' caps caps' k h (returns (matched l m n)) b = returns (matched (omega arith) m n)
