-- ===== src/Lua/Replace/Whole.antt =====
-- lua515/lstrlib.c: `str_gsub` ends, and keeps what is between the matches.
use lua_engine.Base.{
  ℕ, suc, ◌+◌, ◌≤◌, ◌≡◌, refl, sym, ap, ◌∙◌, true, Option, List, [], ◌∷◌, ◌++◌, length, arith, drop,
  take, take-append-drop, ◌==◌, if◌then◌else◌,
}
use lua_engine.Base.Int.{ℤ}
use lua_engine.Lua.Classes.{Ctype}
use lua_engine.Lua.Classes.Reads.{Runs, returns, Runs-bind, Runs-map, byte-Runs}
use lua_engine.Lua.Find.Bounds.{anchored}
use lua_engine.Lua.Replace.{Replacement, text, slice, add_escape, add_s, add_value, limit, str_gsub}
use lua_engine.Lua.Replace.Values.{DigitsFrom, Returns, add_value-Runs}
use lua_engine.Lua.Replace.Loop.{Replaced, replaced, gsub_loop-Loops, take_more, slice_between}

-- `%0`
abbrev pub whole_match : {S : Type 0} → Replacement S
whole_match = text (b'%' ∷ b'0' ∷ [])

module _ (t : Ctype) (to_text : ℕ → List ℕ) (src : List ℕ) {S : Type 0} (pat : List ℕ) where
  counted :
      (max_s : ℕ) (I : ℕ → List ℕ → Type 0) (r : List ℕ × ℕ × S)
      → Replaced src max_s I 0 0 r
      → (r.1 ≤ max_s) × (r.1 ≤ length src + 1)
  counted max_s I (xs, n, st) (replaced s b h i e few bound) = (few, omega arith)

  -- `string.gsub` ends, on any subject and pattern and with any replacement whose Lua code returns or
  -- raises an error: it reports an error, or makes at most as many substitutions as the limit says and at most one more
  -- than the subject has bytes. `isdigit` is taken to hold of no byte below the digits.
  pub str_gsub-Runs :
      (news : Replacement S) (m : Option ℤ) (st : S)
      → DigitsFrom t
      → Returns news
      → Runs
          (λ r. (r.1 ≤ limit (length src) m) × (r.1 ≤ length src + 1))
          (str_gsub t to_text src pat news m st)
  unfolding str_gsub
  str_gsub-Runs news m st digits h = Runs-bind (byte-Runs pat 0 (omega arith)) (λ c inside.
      Runs-map
        (gsub_loop-Loops t to_text src pat news (c == b'^') (if c == b'^' then 1 else 0)
          (limit (length src) m) (λ _ _. Unit {0}) (anchored t src pat c inside) (λ _ _ _ _ _. tt)
          (λ caps s e b st _ _ fits _.
            add_value-Runs t to_text src digits news caps s e b st h fits)
          (suc (length src)) 0 0 [] st (omega arith) (omega arith) (omega arith) tt)
        (counted (limit (length src) m) (λ _ _. Unit {0})))

  kept :
      (max_s : ℕ) (r : List ℕ × ℕ × S)
      → Replaced src max_s (λ s b. b ≡ take s src) 0 0 r
      → r.0 ≡ src
  kept max_s (xs, n, st) (replaced s b h i e few bound) =
      e ∙ ap (λ ys. ys ++ drop s src) i ∙ take-append-drop s src

  -- `string.gsub` with the replacement `%0` returns its subject, or reports an error, for any pattern
  -- and any limit, when `isdigit` holds of the byte `0`.
  pub str_gsub-whole_match :
      (m : Option ℤ) (st : S)
      → t.is_digit b'0' ≡ true
      → Runs (λ r. r.0 ≡ src) (str_gsub t to_text src pat whole_match m st)
  unfolding str_gsub add_value add_s add_escape
  str_gsub-whole_match m st digit = Runs-bind (byte-Runs pat 0 (omega arith)) (λ c inside.
      Runs-map
        (gsub_loop-Loops t to_text src pat (whole_match {S = S}) (c == b'^')
          (if c == b'^' then 1 else 0) (limit (length src) m) (λ s b. b ≡ take s src)
          (anchored t src pat c inside)
          (λ s c' b found i. ap (λ ys. ys ++ (c' ∷ [])) i ∙ sym (take_more src s c' found))
          (λ caps s e b st le _ _ i.
            rw digit (returns (ap (λ ys. ys ++ slice src s e) i ∙ slice_between src s e le)))
          (suc (length src)) 0 0 [] st (omega arith) (omega arith) (omega arith) refl)
        (kept (limit (length src) m)))
