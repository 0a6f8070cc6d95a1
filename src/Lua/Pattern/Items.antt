-- ===== src/Lua/Pattern/Items.antt =====
-- lua515/lstrlib.c: the items of a pattern, for a `match` that behaves on the rest of the pattern.
use lua_engine.Base.{
  ℕ, zero, suc, ◌+◌, ◌-◌, ◌≤◌, ◌<◌, ◌≡◌, refl, Bool, true, List, length, arith, ltb, ltb→lt, ◌==◌,
  eqb→ne,
}
use lua_engine.Lua.Classes.{Ctype}
use lua_engine.Lua.Classes.Reads.{
  Runs, returns, raises, Runs-bind, Runs-map, Runs-if, InText, byte-Runs, singlematch-Runs,
}
use lua_engine.Lua.Captures.{Captures, balance_loop, matchbalance}
use lua_engine.Lua.Pattern.{Matcher, back_loop, single_at, count_loop, max_expand, min_loop}
use lua_engine.Lua.Pattern.Good.{
  Ahead, Ahead-earlier, nowhere, ahead, Fits, Good, failed, Behaves, Fits-later, Good-earlier,
  Runs-or_else,
}

module _ (src : List ℕ) where
  balance_loop-Runs :
      (n b e cont s : ℕ)
      → s ≤ length src
      → length src < n + s
      → Runs (Ahead src s) (balance_loop src n b e cont s)
  unfolding balance_loop
  balance_loop-Runs zero b e cont s h fuel = absurd (omega arith)
  balance_loop-Runs (suc n) b e cont s h fuel =
      Runs-if (ltb (s + 1) (length src))
        (λ lt.
          let more = ltb→lt (s + 1) (length src) lt in
          let later : (cont' : ℕ) → Runs (Ahead src s) (balance_loop src n b e cont' (s + 1)) =
            λ cont'.
              Runs-map (balance_loop-Runs n b e cont' (s + 1) (omega arith) (omega arith))
                (λ r. Ahead-earlier src s (s + 1) r (omega arith)) in
          Runs-bind (byte-Runs src (s + 1) (omega arith)) (λ c _.
            Runs-if (c == e)
              (λ _.
                Runs-if (cont - 1 == 0) (λ _. returns (ahead (omega arith) (omega arith)))
                  (λ _. later (cont - 1)))
              (λ _. Runs-if (c == b) (λ _. later (cont + 1)) (λ _. later cont))))
        (λ _. returns nowhere)

  -- A balanced text ends in the subject, and its two bytes are in the pattern.
  pub matchbalance-Runs :
      (pat : List ℕ) (s p : ℕ)
      → s ≤ length src
      → p ≤ length pat
      → Runs (λ r. (p + 2 ≤ length pat) × Ahead src s r) (matchbalance src pat s p)
  unfolding matchbalance
  matchbalance-Runs pat s p h k = Runs-bind (byte-Runs pat p k) (λ b inside.
      Runs-bind {P = λ e. (p < length pat) × InText pat (p + 1) e}
        (Runs-if (b == 0) (λ _. raises tt)
          (λ ne.
            let more = inside (eqb→ne b 0 ne) in
            Runs-map (byte-Runs pat (p + 1) (omega arith)) (λ e there. (more, there))))
        (λ e there.
          Runs-bind {P = λ _. p + 2 ≤ length pat}
            (Runs-if (e == 0) (λ _. raises tt)
              (λ ne.
                let more = there.1 (eqb→ne e 0 ne) in
                Runs-map (byte-Runs src s h) (λ _ _. omega arith)))
            (λ c two.
              Runs-if (c == b)
                (λ _.
                  Runs-map (balance_loop-Runs (suc (length src)) b e 1 s h (omega arith))
                    (λ r end. (two, end)))
                (λ _. returns (two, nowhere)))))

module _ (t : Ctype) (src pat : List ℕ) where
  -- What is said of a test of one byte: when it succeeds, there is one.
  abbrev pub OneMore : ℕ → Bool → Type 0
  OneMore s m = m ≡ true → s < length src

  pub single_at-Runs :
      (s p ep : ℕ)
      → p < length pat
      → ep ≤ length pat
      → Runs (OneMore s) (single_at t src pat s p ep)
  unfolding single_at
  single_at-Runs s p ep h k =
      Runs-if (ltb s (length src))
        (λ lt.
          let more = ltb→lt s (length src) lt in
          Runs-bind (byte-Runs src s (omega arith))
            (λ c _. Runs-map (singlematch-Runs t pat c p ep h k) (λ m _ _. more)))
        (λ _. returns (λ e. absurd (cc)))

  count_loop-Runs :
      (n s p ep i : ℕ)
      → p < length pat
      → ep ≤ length pat
      → s + i ≤ length src
      → length src < n + s + i
      → Runs (λ j. s + j ≤ length src) (count_loop t src pat n s p ep i)
  unfolding count_loop
  count_loop-Runs zero s p ep i h k le fuel = absurd (omega arith)
  count_loop-Runs (suc n) s p ep i h k le fuel =
      Runs-bind (single_at-Runs (s + i) p ep h k) (λ m more.
        Runs-if m
          (λ e.
            let inside = more e in count_loop-Runs n s p ep (i + 1) h k (omega arith) (omega arith))
          (λ _. returns le))

  module _ (rec : Matcher) (p : ℕ) (h : Behaves src (length pat) rec p) where
    back_loop-Runs :
        (s p' i : ℕ) (caps : Captures)
        → p < p'
        → p' ≤ length pat
        → s + i ≤ length src
        → Fits src s caps
        → Runs (Good src s caps) (back_loop rec s p' i caps)
    unfolding back_loop
    back_loop-Runs s p' zero caps lt le inside fits = h p' s caps lt le (omega arith) fits
    back_loop-Runs s p' (suc i) caps lt le inside fits =
        Runs-or_else src s (s + suc i) caps caps _ (omega arith)
          (h p' (s + suc i) caps lt le inside
            (Fits-later src s (s + suc i) caps (omega arith) fits))
          (back_loop-Runs s p' i caps lt le (omega arith) fits)

    pub max_expand-Runs :
        (s ep : ℕ) (caps : Captures)
        → p < ep
        → ep < length pat
        → s ≤ length src
        → Fits src s caps
        → Runs (Good src s caps) (max_expand t src pat rec s p ep caps)
    unfolding max_expand
    max_expand-Runs s ep caps lt le inside fits =
        Runs-bind
          (count_loop-Runs (suc (length src)) s p ep 0 (omega arith) (omega arith) (omega arith)
            (omega arith))
          (λ i there. back_loop-Runs s (ep + 1) i caps (omega arith) (omega arith) there fits)

    pub min_loop-Runs :
        (n s ep : ℕ) (caps : Captures)
        → p < ep
        → ep < length pat
        → s ≤ length src
        → Fits src s caps
        → length src < n + s
        → Runs (Good src s caps) (min_loop t src pat rec n s p ep caps)
    unfolding min_loop
    min_loop-Runs zero s ep caps lt le inside fits fuel = absurd (omega arith)
    min_loop-Runs (suc n) s ep caps lt le inside fits fuel =
        Runs-or_else src s s caps caps _ (omega arith)
          (h (ep + 1) s caps (omega arith) (omega arith) inside fits)
          (Runs-bind (single_at-Runs s p ep (omega arith) (omega arith)) (λ m more.
            Runs-if m
              (λ e.
                let there = more e in
                Runs-map
                  (min_loop-Runs n (s + 1) ep caps lt le (omega arith)
                    (Fits-later src s (s + 1) caps (omega arith) fits) (omega arith))
                  (λ r. Good-earlier src s (s + 1) caps r (omega arith)))
              (λ _. returns (failed refl))))
