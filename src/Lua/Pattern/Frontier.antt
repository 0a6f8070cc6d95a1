-- ===== src/Lua/Pattern/Frontier.antt =====
-- lua515/lstrlib.c: the frontier and the `default` of `match`.
use lua_engine.Base.{
  ℕ, suc, ◌+◌, ◌-◌, ◌≤◌, ◌<◌, refl, List, length, arith, ◌==◌, eqb→eq, if◌then◌else◌,
}
use lua_engine.Lua.Classes.{ok, Ctype, byte, matchbracketclass}
use lua_engine.Lua.Classes.Reads.{
  Runs, returns, raises, Runs-bind, Runs-map, Runs-if, byte-Runs, Onward, classend-Runs,
  matchbracketclass-Runs,
}
use lua_engine.Lua.Captures.{Captures}
use lua_engine.Lua.Pattern.{Matcher, fail, min_expand, frontier, item}
use lua_engine.Lua.Pattern.Good.{
  Fits, Good, failed, Behaves, Fits-later, Good-earlier, Runs-or_else,
}
use lua_engine.Lua.Pattern.Items.{single_at-Runs, max_expand-Runs, min_loop-Runs}

module _ (t : Ctype) (src pat : List ℕ) (rec : Matcher) where
  previous-Runs :
      (s : ℕ) → s ≤ length src → Runs (λ _. Unit {0}) (if s == 0 then ok 0 else byte src (s - 1))
  previous-Runs s h =
      Runs-if (s == 0) (λ _. returns tt)
        (λ _. Runs-map (byte-Runs src (s - 1) (omega arith)) (λ _ _. tt))

  pub frontier-Runs :
      (p s : ℕ) (caps : Captures)
      → p ≤ length pat
      → s ≤ length src
      → Fits src s caps
      → Behaves src (length pat) rec p
      → Runs (Good src s caps) (frontier t src pat rec s p caps)
  unfolding frontier
  frontier-Runs p s caps le inside fits h = Runs-bind (byte-Runs pat p le) (λ o there.
      Runs-bind {P = λ ep. Onward pat p ep}
        (Runs-if (o == b'[')
          (λ e. let more = there (omega (arith, eqb→eq o b'[' e)) in classend-Runs pat p more)
          (λ _. raises tt))
        (λ ep onward. Runs-bind (previous-Runs s inside) (λ previous _.
          let bracket : (c : ℕ) → Runs (λ _. Unit {0}) (matchbracketclass t pat c p (ep - 1)) = λ c.
            matchbracketclass-Runs t pat c p (ep - 1) (omega (arith, onward))
              (omega (arith, onward)) in
          Runs-bind (bracket previous) (λ before _.
            Runs-if before (λ _. returns (failed refl))
              (λ _. Runs-bind (byte-Runs src s inside) (λ c _. Runs-bind (bracket c) (λ within _.
                Runs-if within (λ _. h ep s caps onward.0 onward.1 inside fits)
                  (λ _. returns (failed refl)))))))))

  pub item-Runs :
      (p s : ℕ) (caps : Captures)
      → p < length pat
      → s ≤ length src
      → Fits src s caps
      → Behaves src (length pat) rec p
      → Runs (Good src s caps) (item t src pat rec s p caps)
  unfolding item min_expand
  item-Runs p s caps lt inside fits h = Runs-bind (classend-Runs pat p lt) (λ ep onward.
      Runs-bind (single_at-Runs t src pat s p ep lt onward.1) (λ m more.
        let one : (p' : ℕ)
            → p < p'
            → p' ≤ length pat
            → Runs (Good src s caps) (if m then rec (s + 1) p' caps else fail caps) =
          λ p' k l.
            Runs-if m
              (λ e.
                let some_left = more e in
                Runs-map
                  (h p' (s + 1) caps k l (omega arith)
                    (Fits-later src s (s + 1) caps (omega arith) fits))
                  (λ r. Good-earlier src s (s + 1) caps r (omega arith)))
              (λ _. returns (failed refl)) in
        Runs-bind (byte-Runs pat ep onward.1) (λ e there.
          Runs-if (e == b'?')
            (λ q.
              let behind = there (omega (arith, eqb→eq e b'?' q)) in
              Runs-or_else src s s caps caps _ (omega arith)
                (one (ep + 1) (omega (arith, onward)) (omega arith))
                (h (ep + 1) s caps (omega (arith, onward)) (omega arith) inside fits))
            (λ _.
              Runs-if (e == b'*')
                (λ q.
                  let behind = there (omega (arith, eqb→eq e b'*' q)) in
                  max_expand-Runs t src pat rec p h s ep caps onward.0 behind inside fits)
                (λ _.
                  Runs-if (e == b'+')
                    (λ q.
                      let behind = there (omega (arith, eqb→eq e b'+' q)) in
                      Runs-if m
                        (λ some_left.
                          let left = more some_left in
                          Runs-map
                            (max_expand-Runs t src pat rec p h (s + 1) ep caps onward.0 behind
                              (omega arith) (Fits-later src s (s + 1) caps (omega arith) fits))
                            (λ r. Good-earlier src s (s + 1) caps r (omega arith)))
                        (λ _. returns (failed refl)))
                    (λ _.
                      Runs-if (e == b'-')
                        (λ q.
                          let behind = there (omega (arith, eqb→eq e b'-' q)) in
                          min_loop-Runs t src pat rec p h (suc (length src)) s ep caps onward.0
                            behind inside fits (omega arith))
                        (λ _. one ep onward.0 onward.1)))))))
