-- ===== src/Lua/Replace/Loop.antt =====
-- lua515/lstrlib.c: `str_gsub` keeps what is between the matches, and `gmatch_aux` moves on.
use lua_engine.Base.{
  ℕ, zero, suc, ◌+◌, ◌-◌, ◌≤◌, ◌<◌, ◌≡◌, refl, ap, ◌∙◌, subst, Bool, none, some, List, [], ◌∷◌,
  ◌++◌, length, arith, drop, take, get_elem?, get_elem?-none, get_elem?-some, Bool-cases, inl, inr,
  ltb, ltb→lt, ltb-false,
}
use lua_engine.Lua.Classes.{Ctype}
use lua_engine.Lua.Classes.Reads.{Runs, returns, Runs-bind, Runs-map, Runs-if}
use lua_engine.Lua.Captures.{Captures}
use lua_engine.Lua.Pattern.{Found}
use lua_engine.Lua.Pattern.Good.{Fits, Good, failed, matched}
use lua_engine.Lua.Pattern.Whole.{match-Good}
use lua_engine.Lua.Replace.{Replacement, slice, add_value, gsub_loop, again, copy, substitute}

pub take_more :
    (xs : List ℕ) (s c : ℕ) → get_elem? xs s ≡ some c → take (s + 1) xs ≡ take s xs ++ (c ∷ [])
take_more xs s c h =
    subst (λ n. take n xs ≡ take s xs ++ (c ∷ [])) {x = suc s} (omega arith) (go xs s h)
  where
    go : (ys : List ℕ) (i : ℕ) → get_elem? ys i ≡ some c → take (suc i) ys ≡ take i ys ++ (c ∷ [])
    go [] i h = absurd (cc)
    go (y ∷ ys) zero h = let same_byte : y ≡ c = cc in ap (λ x. x ∷ []) same_byte
    go (y ∷ ys) (suc i) h = ap (λ zs. y ∷ zs) (go ys i h)

nothing : (n : ℕ) → take {A = ℕ} n [] ≡ []
nothing zero = refl
nothing (suc n) = refl

pub slice_between : (xs : List ℕ) (s e : ℕ) → s ≤ e → take s xs ++ slice xs s e ≡ take e xs
slice_between xs zero e h = ap (λ n. take n xs) (omega arith)
slice_between [] (suc s) zero h = absurd (omega arith)
slice_between [] (suc s) (suc e) h = nothing (suc e - suc s)
slice_between (x ∷ xs) (suc s) zero h = absurd (omega arith)
slice_between (x ∷ xs) (suc s) (suc e) h =
    ap (λ ys. x ∷ ys)
      (ap (λ n. take s xs ++ take n (drop s xs)) (omega arith) ∙ slice_between xs s e (omega arith))

module _ (src : List ℕ) {S : Type 0} (max_s : ℕ) (I : ℕ → List ℕ → Type 0) where
  -- The text is what the buffer held at a place, with the rest of the subject, and the count is bounded
  -- by `max_s` and by how far the loop went.
  pub data Replaced (s n : ℕ) : List ℕ × ℕ × S → Type 0 where
    replaced :
        (s' : ℕ) (b : List ℕ) {xs : List ℕ} {n' : ℕ} {st : S}
        → s' ≤ length src
        → I s' b
        → xs ≡ b ++ drop s' src
        → n' ≤ max_s
        → n' + s ≤ n + length src + 1
        → Replaced s n (xs, n', st)

  Replaced-earlier :
      (s s' n n' : ℕ) (r : List ℕ × ℕ × S) → n' + s ≤ n + s' → Replaced s' n' r → Replaced s n r
  Replaced-earlier s s' n n' (xs, m, st) h (replaced s1 b k i e l bound) =
      replaced s1 b k i e l (omega arith)

module _ (t : Ctype) (to_text : ℕ → List ℕ) (src : List ℕ) {S : Type 0} (pat : List ℕ)
    (news : Replacement S) (anchor : Bool) (p max_s : ℕ) (I : ℕ → List ℕ → Type 0)
    (in_pattern : p ≤ length pat)
    (copies : (s c : ℕ) (b : List ℕ) → get_elem? src s ≡ some c → I s b → I (s + 1) (b ++ (c ∷ [])))
    (adds : (caps : Captures) (s e : ℕ) (b : List ℕ) (st : S)
      → s ≤ e
      → e ≤ length src
      → Fits src e caps
      → I s b
      → Runs (λ r. I e r.0) (add_value t to_text src news caps s e b st)) where
  -- The loop with `k` of fuel.
  abbrev pub Loops : ℕ → Type 0
  Loops k =
      (s n : ℕ) (b : List ℕ) (st : S)
      → s ≤ length src
      → n ≤ max_s
      → length src < k + s
      → I s b
      → Runs (Replaced src max_s I s n) (gsub_loop t to_text src pat news anchor p max_s k s n b st)

  module _ (k : ℕ) (loops : Loops k) (s n : ℕ) (h : s ≤ length src)
      (fuel : length src < suc k + s) where
    -- The end of a round that went to `s'` with a count of `n'`.
    again-Replaced :
        (s' n' : ℕ) (b : List ℕ) (st : S)
        → s < s'
        → s' ≤ length src
        → n' ≤ n + 1
        → n' ≤ max_s
        → I s' b
        → Runs (Replaced src max_s I s n) (
            again t to_text src pat news anchor p max_s
              (gsub_loop t to_text src pat news anchor p max_s k)
              s'
              n'
              b
              st)
    again-Replaced s' n' b st lt le near few i =
        Runs-if anchor (λ _. returns (replaced s' b le i refl few (omega arith)))
          (λ _.
            Runs-map (loops s' n' b st le few (omega arith) i)
              (λ r. Replaced-earlier src max_s I s s' n n' r (omega arith)))

    copy-Replaced :
        (n' : ℕ) (b : List ℕ) (st : S)
        → n' ≤ n + 1
        → n' ≤ max_s
        → I s b
        → Runs (Replaced src max_s I s n) (
            copy t to_text src pat news anchor p max_s
              (gsub_loop t to_text src pat news anchor p max_s k)
              s
              n'
              b
              st)
    unfolding copy
    copy-Replaced n' b st near few i = elim (Bool-cases (ltb s (length src))) [
      | inl e ↦
          let more = ltb→lt s (length src) e in
          let (c, found) = get_elem?-some src s more in
          rw (found, copy)
            (again-Replaced (s + 1) n' (b ++ (c ∷ [])) st (omega arith) (omega arith) near few
              (copies s c b found i))
      | inr e ↦
          let end = ltb-false s (length src) e in
          rw (get_elem?-none src s end, copy) (returns (replaced s b h i refl few (omega arith)))
    ]

    substitute-Replaced :
        (r : Found) (b : List ℕ) (st : S)
        → n < max_s
        → I s b
        → Good src s [] r
        → Runs (Replaced src max_s I s n) (
            substitute t to_text src pat news anchor p max_s
              (gsub_loop t to_text src pat news anchor p max_s k)
              r.0
              r.1
              s
              n
              b
              st)
    unfolding substitute
    substitute-Replaced (none, caps) b st more i (failed e) =
        copy-Replaced n b st (omega arith) (omega arith) i
    substitute-Replaced (some e, caps) b st more i (matched le inside fits) =
        Runs-bind (adds caps s e b st le inside fits i) (λ added i'.
          Runs-if (ltb s e)
            (λ lt.
              again-Replaced e (n + 1) added.0 added.1 (ltb→lt s e lt) inside (omega arith)
                (omega arith) i')
            (λ ge.
              let same_place : e ≡ s = omega (arith, ltb-false s e ge, le) in
              copy-Replaced (n + 1) added.0 added.1 (omega arith) (omega arith)
                (subst (λ j. I j added.0) same_place i')))

  pub gsub_loop-Loops : (k : ℕ) → Loops k
  unfolding gsub_loop
  gsub_loop-Loops zero s n b st h le fuel i = absurd (omega arith)
  gsub_loop-Loops (suc k) s n b st h le fuel i =
      Runs-if (ltb n max_s)
        (λ more.
          Runs-bind
            (match-Good t src pat (suc (length pat)) p s [] in_pattern (omega arith) h
              (tt, omega arith))
            (λ r good.
              substitute-Replaced k (gsub_loop-Loops k) s n h fuel r b st (ltb→lt n max_s more) i
                good))
        (λ _. returns (replaced s b h i refl le (omega arith)))
