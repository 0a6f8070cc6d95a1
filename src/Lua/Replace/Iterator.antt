-- ===== src/Lua/Replace/Iterator.antt =====
-- lua515/lstrlib.c: the iterator of `string.gmatch` moves on.
use lua_engine.Base.{
  ℕ, zero, suc, ◌+◌, ◌≤◌, ◌<◌, Option, none, some, List, [], length, arith, leb, leb→le, ◌==◌,
  eqb→ne, Bool-cases, inl, inr, if◌then◌else◌,
}
use lua_engine.Lua.Classes.{ok, ◌>>=◌, Ctype}
use lua_engine.Lua.Classes.Reads.{Runs, returns, Runs-bind, Runs-map, Runs-if}
use lua_engine.Lua.Pattern.{Found}
use lua_engine.Lua.Pattern.Good.{Good, failed, matched}
use lua_engine.Lua.Pattern.Whole.{match-Good}
use lua_engine.Lua.Find.{Pushed, push_captures}
use lua_engine.Lua.Find.Bounds.{push_captures-Runs}
use lua_engine.Lua.Replace.{gmatch_loop, gmatch_aux}

module _ (t : Ctype) (src pat : List ℕ) where
  -- What a call of the iterator leaves: the end, or the index of the next call, which lies further on and
  -- at most one behind the subject.
  pub data Advances (s : ℕ) : Option (ℕ × List Pushed) → Type 0 where
    ended : Advances s none
    advanced : {n : ℕ} {vs : List Pushed} → s < n → n ≤ length src + 1 → Advances s (some (n, vs))

  Advances-earlier : (s : ℕ) (o : Option (ℕ × List Pushed)) → Advances (s + 1) o → Advances s o
  Advances-earlier s none ended = ended
  Advances-earlier s (some (n, vs)) (advanced lt le) = advanced (omega arith) le

  next_start :
      (s e : ℕ)
      → s ≤ e
      → e ≤ length src
      → (s < (if e == s then e + 1 else e)) × ((if e == s then e + 1 else e) ≤ length src + 1)
  next_start s e h k = elim (Bool-cases (e == s)) [
    | inl q ↦ rw q (omega arith, omega arith)
    | inr q ↦ let other = eqb→ne e s q in rw q (omega arith, omega arith)
  ]

  gmatch_loop-Advances :
      (k s : ℕ) → 0 < k → length src + 1 < k + s → Runs (Advances s) (gmatch_loop t src pat k s)
  unfolding gmatch_loop
  gmatch_loop-Advances zero s some_fuel fuel = absurd (omega arith)
  gmatch_loop-Advances (suc k) s some_fuel fuel =
      Runs-if (leb s (length src))
        (λ le.
          let inside = leb→le s (length src) le in
          Runs-bind
            (match-Good t src pat (suc (length pat)) 0 s [] (omega arith) (omega arith) inside
              (tt, omega arith))
            (λ r good. after r good (
              Runs-map (gmatch_loop-Advances k (s + 1) (omega arith) (omega arith))
                (Advances-earlier s))))
        (λ _. returns ended)
    where
      after :
          (r : Found)
          → Good src s [] r
          → Runs (Advances s) (gmatch_loop t src pat k (s + 1))
          → Runs (Advances s) (elim r.0 [
            | none ↦ gmatch_loop t src pat k (s + 1)
            | some e ↦
                push_captures src r.1 (some (s, e))
                >>= (λ vs. ok (some ((if e == s then e + 1 else e), vs)))
          ])
      after (none, caps) (failed q) rest = rest
      after (some e, caps) (matched le inside fits) rest =
          Runs-bind (push_captures-Runs src e caps (some (s, e)) fits.0)
            (λ vs _. let (lt, bound) = next_start s e le inside in returns (advanced lt bound))

  -- A call of the iterator of `string.gmatch` ends, for any pattern and from any index. It reports an
  -- error, or says that there is no further match, or returns the values of a match and an index for
  -- the next call that is greater and at most one behind the subject.
  pub gmatch_aux-Advances : (s : ℕ) → Runs (Advances s) (gmatch_aux t src pat s)
  unfolding gmatch_aux
  gmatch_aux-Advances s =
      gmatch_loop-Advances (suc (suc (length src))) s (omega arith) (omega arith)
