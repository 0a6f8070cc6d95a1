-- ===== src/Lua/Classes/Reads.antt =====
-- lua515/lstrlib.c: the items of a pattern are read inside the pattern, and the loops over them end.
use lua_engine.Base.{
  ℕ, zero, suc, ◌+◌, ◌-◌, ◌≤◌, ◌<◌, ◌≡◌, ◌≢◌, refl, Bool, true, false, ◌&&◌, List, length, ltb, leb,
  ◌==◌, if◌then◌else◌, arith, ltb→lt, ltb-false, eqb→eq, eqb→ne, eq→eqb, Bool-cases, inl, inr,
  get_elem?-some, get_elem?-none,
}
use lua_engine.Lua.Classes.{
  PatternError, outside, out_of_fuel, Res, ok, raised, ◌>>=◌, Ctype, byte, class_loop, classend,
  match_class, bracket_loop, matchbracketclass, singlematch,
}

-- The errors that the C code itself reports.
abbrev pub Reported : PatternError → Type 0
Reported outside = ⊥
Reported out_of_fuel = ⊥
Reported _ = Unit

pub data Runs {A : Type 0} (P : A → Type 0) : Res A → Type 0 where
  returns : {a : A} → P a → Runs P (ok a)
  raises : {e : PatternError} → Reported e → Runs P (raised e)

module _ {A : Type 0} {P : A → Type 0} where
  pub Runs-bind :
      {B : Type 0} {Q : B → Type 0} {m : Res A} {k : A → Res B}
      → Runs P m
      → ((a : A) → P a → Runs Q (k a))
      → Runs Q (m >>= k)
  Runs-bind (returns h) k = k _ h
  Runs-bind (raises h) k = raises h

  pub Runs-map : {Q : A → Type 0} {m : Res A} → Runs P m → ((a : A) → P a → Q a) → Runs Q m
  Runs-map (returns h) k = returns (k _ h)
  Runs-map (raises h) k = raises h

  pub Runs-if :
      (b : Bool) {m n : Res A}
      → (b ≡ true → Runs P m)
      → (b ≡ false → Runs P n)
      → Runs P (if b then m else n)
  Runs-if true h k = h refl
  Runs-if false h k = k refl

-- What a byte that was read at `i` says: behind the last there is a zero.
abbrev pub InText : List ℕ → ℕ → ℕ → Type 0
InText xs i c = (c ≢ 0) → i < length xs

pub byte-Runs : (xs : List ℕ) (i : ℕ) → i ≤ length xs → Runs (InText xs i) (byte xs i)
byte-Runs xs i h = elim (Bool-cases (ltb i (length xs))) [
  | inl e ↦
      let inside = ltb→lt i (length xs) e in
      let (c, found) = get_elem?-some xs i inside in rw (byte, found) (returns (λ _. inside))
  | inr e ↦
      let past = ltb-false i (length xs) e in
      rw (byte, get_elem?-none xs i past, eq→eqb i (length xs) (omega arith))
        (returns (λ ne. absurd (ne refl)))
]

module _ (pat : List ℕ) where
  -- A place behind `p`, in the pattern.
  abbrev pub Onward : ℕ → ℕ → Type 0
  Onward p q = (p < q) × (q ≤ length pat)

  escape_bounds :
      (p d : ℕ) → p < length pat → InText pat (p + 1) d → Onward p (if d == 0 then p + 1 else p + 2)
  escape_bounds p d h k = elim (Bool-cases (d == 0)) [
    | inl e ↦ rw e (omega arith, omega arith)
    | inr e ↦ let inside = k (eqb→ne d 0 e) in rw e (omega arith, omega arith)
  ]

  class_loop-Runs :
      (n p : ℕ) → p ≤ length pat → length pat < n + p → Runs (Onward p) (class_loop pat n p)
  unfolding class_loop
  class_loop-Runs zero p h fuel = absurd (omega arith)
  class_loop-Runs (suc n) p h fuel = Runs-bind (byte-Runs pat p h) (λ c inside.
      Runs-if (c == 0) (λ e. raises tt)
        (λ e.
          let more = inside (eqb→ne c 0 e) in
          Runs-bind {P = Onward p}
            (Runs-if (c == b'%')
              (λ e1.
                Runs-bind (byte-Runs pat (p + 1) (omega arith))
                  (λ d inside'. returns (escape_bounds p d (omega arith) inside')))
              (λ e1. returns (omega arith, omega arith)))
            (λ q onward. Runs-bind (byte-Runs pat q onward.1) (λ e2 inside2.
              Runs-if (e2 == b']')
                (λ e3.
                  let there = inside2 (omega (arith, eqb→eq e2 b']' e3)) in
                  returns (omega (arith, onward), omega arith))
                (λ e3.
                  Runs-map (class_loop-Runs n q onward.1 (omega (arith, onward)))
                    (λ r o. (omega (arith, o, onward), o.1)))))))

  bracket_start :
      (p d : ℕ)
      → p < length pat
      → InText pat (p + 1) d
      → Onward p (if d == b'^' then p + 2 else p + 1)
  bracket_start p d h k = elim (Bool-cases (d == b'^')) [
    | inl e ↦ let inside = k (omega (arith, eqb→eq d b'^' e)) in rw e (omega arith, omega arith)
    | inr e ↦ rw e (omega arith, omega arith)
  ]

  pub classend-Runs : (p : ℕ) → p < length pat → Runs (Onward p) (classend pat p)
  unfolding classend
  classend-Runs p h = Runs-bind (byte-Runs pat p (omega arith)) (λ c _.
      Runs-if (c == b'%')
        (λ e. Runs-bind (byte-Runs pat (p + 1) (omega arith)) (λ d inside.
          Runs-if (d == 0) (λ e1. raises tt)
            (λ e1. let there = inside (eqb→ne d 0 e1) in returns (omega arith, omega arith))))
        (λ e.
          Runs-if (c == b'[')
            (λ e1. Runs-bind (byte-Runs pat (p + 1) (omega arith)) (λ d inside.
              let start = bracket_start p d h inside in
              Runs-map
                (class_loop-Runs (suc (length pat)) (if d == b'^' then p + 2 else p + 1) start.1
                  (omega (arith, start.0)))
                (λ q o. (omega (arith, o, start), o.1))))
            (λ e1. returns (omega arith, omega arith))))

module _ (t : Ctype) (pat : List ℕ) where
  range_inside : (y q ec : ℕ) → ec ≤ length pat → (y == b'-' && ltb q ec) ≡ true → q ≤ length pat
  range_inside y q ec h e = ground arith

  bracket_loop-Runs :
      (n c p ec : ℕ) (sig : Bool)
      → ec ≤ length pat
      → 0 < n
      → ec ≤ n + p
      → Runs (λ _. Unit {0}) (bracket_loop t pat n c p ec sig)
  unfolding bracket_loop
  bracket_loop-Runs zero c p ec sig h some_fuel fuel = absurd (omega arith)
  bracket_loop-Runs (suc n) c p ec sig h some_fuel fuel =
      Runs-if (ltb (p + 1) ec)
        (λ e.
          let inside = ltb→lt (p + 1) ec e in
          Runs-bind (byte-Runs pat (p + 1) (omega arith)) (λ x _.
            Runs-bind (byte-Runs pat (p + 1 + 1) (omega arith)) (λ y _.
              Runs-if (x == b'%')
                (λ e1.
                  Runs-if (match_class t c y) (λ e2. returns tt)
                    (λ e2. bracket_loop-Runs n c (p + 1 + 1) ec sig h (omega arith) (omega arith)))
                (λ e1.
                  Runs-if (y == b'-' && ltb (p + 1 + 2) ec)
                    (λ e2.
                      Runs-bind (byte-Runs pat (p + 1 + 2) (range_inside y (p + 1 + 2) ec h e2))
                        (λ z _.
                          Runs-if (leb x c && leb c z) (λ e3. returns tt)
                            (λ e3.
                              bracket_loop-Runs n c (p + 1 + 2) ec sig h (omega arith)
                                (omega arith))))
                    (λ e2.
                      Runs-if (x == c) (λ e3. returns tt)
                        (λ e3.
                          bracket_loop-Runs n c (p + 1) ec sig h (omega arith) (omega arith)))))))
        (λ e. returns tt)

  pub matchbracketclass-Runs :
      (c p ec : ℕ)
      → p < length pat
      → ec ≤ length pat
      → Runs (λ _. Unit {0}) (matchbracketclass t pat c p ec)
  unfolding matchbracketclass
  matchbracketclass-Runs c p ec h k = Runs-bind (byte-Runs pat (p + 1) (omega arith)) (λ d _.
      Runs-if (d == b'^')
        (λ e. bracket_loop-Runs (suc ec) c (p + 1) ec false k (omega arith) (omega arith))
        (λ e. bracket_loop-Runs (suc ec) c p ec true k (omega arith) (omega arith)))

  pub singlematch-Runs :
      (c p ep : ℕ)
      → p < length pat
      → ep ≤ length pat
      → Runs (λ _. Unit {0}) (singlematch t pat c p ep)
  unfolding singlematch
  singlematch-Runs c p ep h k = Runs-bind (byte-Runs pat p (omega arith)) (λ x _.
      Runs-if (x == b'.') (λ e. returns tt)
        (λ e.
          Runs-if (x == b'%')
            (λ e1. Runs-bind (byte-Runs pat (p + 1) (omega arith)) (λ y _. returns tt))
            (λ e1.
              Runs-if (x == b'[') (λ e2. matchbracketclass-Runs c p (ep - 1) h (omega arith))
                (λ e2. returns tt))))
