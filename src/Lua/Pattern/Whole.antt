-- ===== src/Lua/Pattern/Whole.antt =====
-- lua515/lstrlib.c: `match` as a whole reads inside its strings, ends, and keeps the captures in order.
use lua_engine.Base.{
  ℕ, zero, suc, ◌+◌, ◌≤◌, ◌<◌, refl, Bool, true, false, Option, none, some, List, length, arith,
  ◌==◌, eqb→eq, eqb→ne, if◌then◌else◌,
}
use lua_engine.Lua.Classes.{Ctype}
use lua_engine.Lua.Classes.Reads.{Runs, returns, Runs-bind, Runs-map, Runs-if, byte-Runs}
use lua_engine.Lua.Captures.{unfinished, position, Captures}
use lua_engine.Lua.Pattern.{Matcher, go_on, escape, match_body, match}
use lua_engine.Lua.Pattern.Good.{
  Ahead, nowhere, ahead, Fits, Good, failed, matched, Behaves, Fits-later, Good-earlier,
}
use lua_engine.Lua.Pattern.Levels.{match_capture-Runs, start_capture-Runs, end_capture-Runs}
use lua_engine.Lua.Pattern.Items.{matchbalance-Runs}
use lua_engine.Lua.Pattern.Frontier.{frontier-Runs, item-Runs}

module _ (t : Ctype) (src pat : List ℕ) where
  go_on-Runs :
      (rec : Matcher) (p p' s : ℕ) (caps : Captures) (r : Option ℕ)
      → p < p'
      → p' ≤ length pat
      → Fits src s caps
      → Behaves src (length pat) rec p
      → Ahead src s r
      → Runs (Good src s caps) (go_on rec p' caps r)
  go_on-Runs rec p p' s caps none lt le fits h nowhere = returns (failed refl)
  go_on-Runs rec p p' s caps (some e) lt le fits h (ahead k l) =
      Runs-map (h p' e caps lt le l (Fits-later src s e caps k fits))
        (λ r. Good-earlier src s e caps r k)

  escape-Runs :
      (rec : Matcher) (p s : ℕ) (caps : Captures)
      → p < length pat
      → s ≤ length src
      → Fits src s caps
      → Behaves src (length pat) rec p
      → Runs (Good src s caps) (escape t src pat rec s p caps)
  unfolding escape
  escape-Runs rec p s caps lt inside fits h =
      Runs-bind (byte-Runs pat (p + 1) (omega arith)) (λ d there.
        Runs-if (d == b'b')
          (λ e.
            let more = there (omega (arith, eqb→eq d b'b' e)) in
            Runs-bind (matchbalance-Runs src pat s (p + 2) inside (omega arith)) (λ r balanced.
              go_on-Runs rec p (p + 4) s caps r (omega arith) (omega (arith, balanced.0)) fits h
                balanced.1))
          (λ _.
            Runs-if (d == b'f')
              (λ e.
                let more = there (omega (arith, eqb→eq d b'f' e)) in
                frontier-Runs t src pat rec (p + 2) s caps (omega arith) inside fits
                  (λ p' s' caps' lt' le' i f. h p' s' caps' (omega arith) le' i f))
              (λ _.
                Runs-if (t.is_digit d)
                  (λ e. Runs-bind (match_capture-Runs src s caps d inside fits) (λ r again.
                    let more = there (omega (arith, again.0)) in
                    go_on-Runs rec p (p + 2) s caps r (omega arith) (omega arith) fits h again.1))
                  (λ _. item-Runs t src pat rec p s caps lt inside fits h))))

  at_end :
      (s : ℕ) (caps : Captures)
      → s ≤ length src
      → Fits src s caps
      → (b : Bool) → Good src s caps ((if b then some s else none), caps)
  at_end s caps inside fits true = matched (omega arith) inside fits
  at_end s caps inside fits false = failed refl

  match_body-Runs :
      (rec : Matcher) (p s : ℕ) (caps : Captures)
      → p ≤ length pat
      → s ≤ length src
      → Fits src s caps
      → Behaves src (length pat) rec p
      → Runs (Good src s caps) (match_body t src pat rec s p caps)
  unfolding match_body
  match_body-Runs rec p s caps le inside fits h = Runs-bind (byte-Runs pat p le) (λ c there.
      Runs-if (c == b'(')
        (λ e.
          let more = there (omega (arith, eqb→eq c b'(' e)) in
          Runs-bind (byte-Runs pat (p + 1) (omega arith)) (λ d there'.
            Runs-if (d == b')')
              (λ e'.
                let two = there' (omega (arith, eqb→eq d b')' e')) in
                start_capture-Runs src rec (length pat) p h s (p + 2) position caps (omega arith)
                  (omega arith) inside inside fits)
              (λ _.
                start_capture-Runs src rec (length pat) p h s (p + 1) unfinished caps (omega arith)
                  (omega arith) inside (omega arith) fits)))
        (λ _.
          Runs-if (c == b')')
            (λ e.
              let more = there (omega (arith, eqb→eq c b')' e)) in
              end_capture-Runs src rec (length pat) p h s (p + 1) caps (omega arith) (omega arith)
                inside fits)
            (λ _.
              Runs-if (c == b'%')
                (λ e.
                  let more = there (omega (arith, eqb→eq c b'%' e)) in
                  escape-Runs rec p s caps more inside fits h)
                (λ _.
                  Runs-if (c == 0) (λ _. returns (matched (omega arith) inside fits))
                    (λ ne.
                      let more = there (eqb→ne c 0 ne) in
                      Runs-if (c == b'$')
                        (λ e. Runs-bind (byte-Runs pat (p + 1) (omega arith)) (λ d _.
                          Runs-if (d == 0)
                            (λ _. returns (at_end s caps inside fits (s == length src)))
                            (λ _. item-Runs t src pat rec p s caps more inside fits h)))
                        (λ _. item-Runs t src pat rec p s caps more inside fits h))))))

  -- A call of `match` with at least as much fuel as there are bytes in the pattern from `p` on, and one
  -- more, at places in the two strings and with captures that lie in the subject, ends, and without a
  -- read outside of the strings. It fails and leaves the captures that it found, or it reports an error,
  -- or it ends at a place of the subject at or behind its start, with at most 32 captures, all in the
  -- subject.
  pub match-Good :
      (n p s : ℕ) (caps : Captures)
      → p ≤ length pat
      → length pat < n + p
      → s ≤ length src
      → Fits src s caps
      → Runs (Good src s caps) (match t src pat n s p caps)
  unfolding match
  match-Good zero p s caps le fuel inside fits = absurd (omega arith)
  match-Good (suc n) p s caps le fuel inside fits =
      match_body-Runs (match t src pat n) p s caps le inside fits
        (λ p' s' caps' lt' le' i f. match-Good n p' s' caps' le' (omega arith) i f)
