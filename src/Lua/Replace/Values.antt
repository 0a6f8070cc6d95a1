-- ===== src/Lua/Replace/Values.antt =====
-- lua515/lstrlib.c: the text that takes the place of a match.
use lua_engine.Base.{
  ℕ, ◌-◌, ◌≤◌, ◌≡◌, refl, Bool, true, false, not, some, List, [], ◌∷◌, ◌++◌, arith, get_elem?,
  Option-cases, inl, inr, ltb, ltb→lt, ◌==◌, eqb→ne,
}
use lua_engine.Lua.Classes.{Ctype}
use lua_engine.Lua.Classes.Reads.{Runs, returns, raises, Runs-bind, Runs-if}
use lua_engine.Lua.Captures.{Captures}
use lua_engine.Lua.Pattern.Good.{Inside, Fits}
use lua_engine.Lua.Pattern.Levels.{All-get}
use lua_engine.Lua.Find.{Pushed}
use lua_engine.Lua.Find.Bounds.{push_capture-Runs, push_captures-Runs}
use lua_engine.Lua.Replace.{
  Reply, keep, other, reply, Replacement, text, function, table, push_onecapture, add_escape, add_s,
  add_reply, add_value,
}

-- `isdigit` holds of no byte below the digits.
abbrev pub DigitsFrom : Ctype → Type 0
DigitsFrom t = (d : ℕ) → t.is_digit d ≡ true → b'0' ≤ d

-- The Lua code that is called returns, or raises an error.
abbrev pub Returns : {S : Type 0} → Replacement S → Type 0
Returns (text news) = Unit
Returns {S = S} (function f) = (st : S) (vs : List Pushed) → Runs (λ _. Unit {0}) (f st vs)
Returns {S = S} (table f) = (st : S) (v : Pushed) → Runs (λ _. Unit {0}) (f st v)

not-false : (b : Bool) → not b ≡ false → b ≡ true
not-false true h = refl
not-false false h = absurd (cc)

push_onecapture-Runs :
    (src : List ℕ) (caps : Captures) (i s e : ℕ)
    → Fits src e caps
    → Runs (λ _. Unit {0}) (push_onecapture src caps i s e)
unfolding push_onecapture
push_onecapture-Runs src caps i s e fits = elim (Option-cases (get_elem? caps i)) [
  | inl gone ↦ rw (gone, push_onecapture) (Runs-if (i == 0) (λ _. returns tt) (λ _. raises tt))
  | inr (c, found) ↦
      rw (found, push_onecapture)
        (push_capture-Runs src e c.init c.len (All-get (Inside src e) caps i c fits.0 found))
]

module _ (t : Ctype) (to_text : ℕ → List ℕ) (src : List ℕ) (digits : DigitsFrom t) where
  add_escape-Runs :
      (caps : Captures) (s e d : ℕ) (b : List ℕ)
      → Fits src e caps
      → Runs (λ _. Unit {0}) (add_escape t to_text src caps s e d b)
  unfolding add_escape
  add_escape-Runs caps s e d b fits =
      Runs-if (not (t.is_digit d)) (λ _. returns tt)
        (λ digit.
          Runs-if (d == b'0') (λ _. returns tt)
            (λ more.
              Runs-if (ltb d b'1')
                (λ less.
                  let digit' = digits d (not-false (t.is_digit d) digit) in
                  absurd (omega (arith, ltb→lt d b'1' less, eqb→ne d b'0' more, digit')))
                (λ _.
                  Runs-bind (push_onecapture-Runs src caps (d - b'1') s e fits)
                    (λ v _. returns tt))))

  add_s-Runs :
      (caps : Captures) (s e : ℕ) (news b : List ℕ)
      → Fits src e caps
      → Runs (λ _. Unit {0}) (add_s t to_text src caps s e news b)
  unfolding add_s
  add_s-Runs caps s e [] b fits = returns tt
  add_s-Runs caps s e (c ∷ []) b fits =
      Runs-if (c == b'%') (λ _. add_escape-Runs caps s e 0 b fits) (λ _. returns tt)
  add_s-Runs caps s e (c ∷ d ∷ news) b fits =
      Runs-if (c == b'%')
        (λ _.
          Runs-bind (add_escape-Runs caps s e d b fits) (λ b' _. add_s-Runs caps s e news b' fits))
        (λ _. add_s-Runs caps s e (d ∷ news) (b ++ (c ∷ [])) fits)

  add_reply-Runs :
      {S : Type 0} (s e : ℕ) (b : List ℕ) (r : Reply × S)
      → Runs (λ _. Unit {0}) (add_reply t to_text src s e b r)
  add_reply-Runs s e b (keep, st) = returns tt
  add_reply-Runs s e b (reply xs, st) = returns tt
  add_reply-Runs s e b (other, st) = raises tt

  pub add_value-Runs :
      {S : Type 0} (news : Replacement S) (caps : Captures) (s e : ℕ) (b : List ℕ) (st : S)
      → Returns news
      → Fits src e caps
      → Runs (λ _. Unit {0}) (add_value t to_text src news caps s e b st)
  unfolding add_value
  add_value-Runs (text news) caps s e b st h fits =
      Runs-bind (add_s-Runs caps s e news b fits) (λ b' _. returns tt)
  add_value-Runs (function f) caps s e b st h fits =
      Runs-bind (push_captures-Runs src e caps (some (s, e)) fits.0)
        (λ vs _. Runs-bind (h st vs) (λ r _. add_reply-Runs s e b r))
  add_value-Runs (table f) caps s e b st h fits =
      Runs-bind (push_onecapture-Runs src caps 0 s e fits)
        (λ v _. Runs-bind (h st v) (λ r _. add_reply-Runs s e b r))
