-- ===== src/Lua/Pattern/Levels.antt =====
-- lua515/lstrlib.c: captures that are opened, closed, undone and matched again.
use lua_engine.Base.{
  ℕ, zero, suc, ◌+◌, ◌-◌, ◌≤◌, ◌<◌, ◌≡◌, refl, sym, ap, Bool, true, false, none, some, List, [],
  ◌∷◌, ◌++◌, length, All, arith, All-append, length-append, take-append, take, drop, get_elem?,
  get_elem?-some, Option-cases, inl, inr, subst, ltb, leb, ltb-false, leb→le, leb-false, le→leb,
  if◌then◌else◌,
}
use lua_engine.Lua.Classes.Reads.{Runs, returns, raises, Runs-bind, Runs-map, Runs-if}
use lua_engine.Lua.Captures.{
  CapLen, unfinished, position, closed, Capture, Captures, max_captures, set_len, is_unfinished,
  check_capture, close_loop, capture_to_close, memcmp_at, compare_capture, match_capture,
  same_bytes,
}
use lua_engine.Lua.Pattern.{Matcher, start_capture, end_capture}
use lua_engine.Lua.Pattern.Good.{
  LiesIn, Ahead, nowhere, ahead, Inside, Fits, Good, failed, Behaves, Runs-or_else,
}

pub All-get :
    {A : Type 0} (P : A → Type 0) (xs : List A) (i : ℕ) (x : A)
    → All P xs
    → get_elem? xs i ≡ some x
    → P x
All-get P [] i x h e = absurd (cc)
All-get P (y ∷ ys) zero x h e = let same : y ≡ x = cc in subst P same h.0
All-get P (y ∷ ys) (suc i) x h e = All-get P ys i x h.1 e

length-set_len : (caps : Captures) (l : ℕ) (n : CapLen) → length (set_len caps l n) ≡ length caps
length-set_len [] l n = refl
length-set_len (c ∷ caps) zero n = refl
length-set_len (c ∷ caps) (suc l) n = ap suc (length-set_len caps l n)

-- Closing a capture is undone by opening it.
set_len-set_len :
    (caps : Captures) (l : ℕ) (n : CapLen) (c : Capture)
    → get_elem? caps l ≡ some c
    → c.len ≡ unfinished
    → set_len (set_len caps l n) l unfinished ≡ caps
set_len-set_len [] l n c found e = refl
set_len-set_len (d ∷ caps) zero n c found e =
    let same : d ≡ c = cc in
    ap (λ l. record { init = d.init; len = l } ∷ caps)
      (sym (subst (λ x. x.len ≡ unfinished) (sym same) e))
set_len-set_len (d ∷ caps) (suc l) n c found e =
    ap (λ cs. d ∷ cs) (set_len-set_len caps l n c found e)

take_back :
    (caps : Captures) (c : Capture) → take (length (caps ++ (c ∷ [])) - 1) (caps ++ (c ∷ [])) ≡ caps
take_back caps c =
    rw (length-append caps (c ∷ [])) (take-append (length caps + 1 - 1) caps (c ∷ []) (omega arith))

unfinished_eq : (n : CapLen) → is_unfinished n ≡ true → n ≡ unfinished
unfinished_eq unfinished h = refl
unfinished_eq position h = absurd (cc)
unfinished_eq (closed n) h = absurd (cc)

close_loop-Runs :
    (caps : Captures) (n : ℕ)
    → n ≤ length caps
    → Runs (λ r. (get_elem? caps r.0 ≡ some r.1) × (r.1.len ≡ unfinished)) (close_loop caps n)
unfolding close_loop
close_loop-Runs caps zero h = raises tt
close_loop-Runs caps (suc n) h =
    let (c, found) = get_elem?-some caps n (omega arith) in
    rw (found, close_loop)
      (Runs-if (is_unfinished c.len) (λ e. returns (found, unfinished_eq c.len e))
        (λ e. close_loop-Runs caps n (omega arith)))

module _ (src : List ℕ) where
  All-set_len :
      (s : ℕ) (caps : Captures) (l : ℕ) (c : Capture) (n : CapLen)
      → get_elem? caps l ≡ some c
      → LiesIn src s c.init n
      → All (Inside src s) caps
      → All (Inside src s) (set_len caps l n)
  All-set_len s [] l c n found h k = tt
  All-set_len s (d ∷ caps) zero c n found h k =
      let same : d ≡ c = cc in (subst (λ x. LiesIn src s x.init n) (sym same) h, k.1)
  All-set_len s (d ∷ caps) (suc l) c n found h k = (k.0, All-set_len s caps l c n found h k.1)

  check_capture-Runs :
      (s : ℕ) (caps : Captures) (l : ℕ)
      → Fits src s caps
      → Runs (λ c. (b'1' ≤ l) × Inside src s c) (check_capture caps l)
  unfolding check_capture
  check_capture-Runs s caps l h =
      Runs-if (ltb l b'1') (λ e. raises tt)
        (λ e. elim (Option-cases (get_elem? caps (l - b'1'))) [
          | inl gone ↦ rw gone (raises tt)
          | inr (c, found) ↦ rw found (
              Runs-if (is_unfinished c.len) (λ e'. raises tt)
                (λ e'.
                  returns (ltb-false l b'1' e, All-get (Inside src s) caps (l - b'1') c h.0 found)))
        ])

  placed :
      (s n : ℕ) (b : Bool) → s + n ≤ length src → Ahead src s (if b then some (s + n) else none)
  placed s n true g = ahead (omega arith) g
  placed s n false g = nowhere

  compare_capture-Runs :
      (s i : ℕ) (n : CapLen)
      → s ≤ length src
      → LiesIn src s i n
      → Runs (Ahead src s) (compare_capture src s i n)
  unfolding compare_capture memcmp_at
  compare_capture-Runs s i unfinished h k = returns nowhere
  compare_capture-Runs s i position h k = returns nowhere
  compare_capture-Runs s i (closed n) h k =
      Runs-if (leb n (length src - s))
        (λ e.
          let fits : s + n ≤ length src = omega (arith, leb→le n (length src - s) e) in
          rw (le→leb (i + n) (length src) k, le→leb (s + n) (length src) fits)
            (returns (placed s n (same_bytes (take n (drop i src)) (take n (drop s src))) fits)))
        (λ e. returns nowhere)

  -- A capture that is matched again ends in the subject.
  pub match_capture-Runs :
      (s : ℕ) (caps : Captures) (l : ℕ)
      → s ≤ length src
      → Fits src s caps
      → Runs (λ r. (b'1' ≤ l) × Ahead src s r) (match_capture src caps s l)
  unfolding match_capture
  match_capture-Runs s caps l h fits = Runs-bind (check_capture-Runs s caps l fits) (λ c inside.
      Runs-map (compare_capture-Runs s c.init c.len h inside.1) (λ r there. (inside.0, there)))

  module _ (rec : Matcher) (bound p : ℕ) (h : Behaves src bound rec p) where
    pub start_capture-Runs :
        (s p' : ℕ) (what : CapLen) (caps : Captures)
        → p < p'
        → p' ≤ bound
        → s ≤ length src
        → LiesIn src s s what
        → Fits src s caps
        → Runs (Good src s caps) (start_capture rec s p' what caps)
    unfolding start_capture
    start_capture-Runs s p' what caps lt le inside lies fits =
        Runs-if (leb max_captures (length caps)) (λ e. raises tt)
          (λ e.
            let opened : Captures = caps ++ (record { init = s; len = what } ∷ []) in
            let few : length opened ≤ max_captures =
              rw (length-append caps (record { init = s; len = what } ∷ []))
                (omega (arith, leb-false max_captures (length caps) e)) in
            Runs-or_else src s s caps opened _ (omega arith)
              (h p' s opened lt le inside (All-append (Inside src s) caps _ fits.0 (lies, tt), few))
              (returns (failed (take_back caps _))))

    pub end_capture-Runs :
        (s p' : ℕ) (caps : Captures)
        → p < p'
        → p' ≤ bound
        → s ≤ length src
        → Fits src s caps
        → Runs (Good src s caps) (end_capture rec s p' caps)
    unfolding end_capture capture_to_close
    end_capture-Runs s p' caps lt le inside fits =
        Runs-bind (close_loop-Runs caps (length caps) (omega arith)) (λ r found.
          let (l, c) = r in
          let closes : Captures = set_len caps l (closed (s - c.init)) in
          let begins : LiesIn src s c.init c.len = All-get (Inside src s) caps l c fits.0 found.0 in
          let before : c.init ≤ s = subst (λ n. LiesIn src s c.init n) found.1 begins in
          Runs-or_else src s s caps closes _ (omega arith)
            (h p' s closes lt le inside (
              All-set_len s caps l c (closed (s - c.init)) found.0 (omega arith) fits.0,
              rw (length-set_len caps l (closed (s - c.init))) fits.1,
            ))
            (returns (failed (set_len-set_len caps l (closed (s - c.init)) c found.0 found.1))))
