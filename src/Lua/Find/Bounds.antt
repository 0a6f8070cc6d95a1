-- ===== src/Lua/Find/Bounds.antt =====
-- lua515/lstrlib.c: what `string.find` returns lies in the subject.
use lua_engine.Base.{
  ℕ, zero, suc, ◌+◌, ◌-◌, ◌≤◌, ◌<◌, ◌≡◌, refl, Bool, true, false, not, ◌&&◌, ◌||◌, Option, none,
  some, List, [], ◌∷◌, length, All, arith, drop, Bool-cases, inl, inr, ltb, ltb→lt, ltb-false, ◌==◌,
  eqb→eq, if◌then◌else◌, length-drop, le→leb,
}
use lua_engine.Base.Int.{ℤ, pos}
use lua_engine.Lua.Strings.{posrelat, optinteger}
use lua_engine.Lua.Classes.{ok, Ctype}
use lua_engine.Lua.Classes.Reads.{
  Runs, returns, raises, Runs-bind, Runs-map, Runs-if, InText, byte-Runs,
}
use lua_engine.Lua.Captures.{CapLen, unfinished, position, closed, Captures}
use lua_engine.Lua.Pattern.{Found}
use lua_engine.Lua.Pattern.Good.{LiesIn, Inside, Fits, Good, failed, matched}
use lua_engine.Lua.Pattern.Whole.{match-Good}
use lua_engine.Lua.Find.{
  Pushed, nil, integer, Place, push_capture, push_all, push_captures, search_loop, find_pattern,
  push_place, find_start, push_plain, no_specials, str_find_aux,
}
use lua_engine.Lua.Find.Plain.{starts, shift, first_at, short-starts, lmemfind-first_at}

-- A place where the second text lies in the first one.
data Located (xs cs : List ℕ) : Option ℕ → Type 0 where
  absent : Located xs cs none
  present : {i : ℕ} → i + length cs ≤ length xs → Located xs cs (some i)

Located-shift :
    (x : ℕ) (xs cs : List ℕ) (o : Option ℕ) → Located xs cs o → Located (x ∷ xs) cs (shift 1 o)
Located-shift x xs cs none absent = absent
Located-shift x xs cs (some i) (present h) = present (omega arith)

starts-le : (xs cs : List ℕ) → starts xs cs ≡ true → length cs ≤ length xs
starts-le xs cs h = elim (Bool-cases (ltb (length xs) (length cs))) [
  | inl e ↦ let no = short-starts xs cs (ltb→lt (length xs) (length cs) e) in absurd (cc)
  | inr e ↦ ltb-false (length xs) (length cs) e
]

first_at-Located : (xs cs : List ℕ) → Located xs cs (first_at xs cs)
first_at-Located [] cs = elim (Bool-cases (starts [] cs)) [
  | inl e ↦ rw e (present (omega (arith, starts-le [] cs e)))
  | inr e ↦ rw e absent
]
first_at-Located (x ∷ xs) cs = elim (Bool-cases (starts (x ∷ xs) cs)) [
  | inl e ↦ rw e (present (omega (arith, starts-le (x ∷ xs) cs e)))
  | inr e ↦ rw e (Located-shift x xs cs (first_at xs cs) (first_at-Located xs cs))
]

clamped : (n l : ℕ) → (if ltb l n then l else n) ≤ l
clamped n l = ground arith

and_left : (a b : Bool) → (a && b) ≡ true → a ≡ true
and_left true b h = refl
and_left false b h = absurd (cc)

pub find_start-le : (src : List ℕ) (i : Option ℤ) → find_start src i ≤ length src
find_start-le src i = clamped (posrelat (optinteger i (pos 1)) (length src) - 1) (length src)

module _ (src : List ℕ) where
  -- A start at or behind `init`, an end at or behind the start and in the subject, captures that fit.
  data Placed (init : ℕ) : Option Place → Type 0 where
    no_place : Placed init none
    at_place :
        {s e : ℕ} {caps : Captures}
        → init ≤ s
        → s ≤ e
        → e ≤ length src
        → Fits src e caps
        → Placed init (some (s, e, caps))

  -- `nil`, or the first and the last position, counted from one, and further values.
  pub data Answer (init : ℕ) : List Pushed → Type 0 where
    not_found : Answer init (nil ∷ [])
    found :
        {a b : ℕ} {vs : List Pushed}
        → init < a
        → a ≤ b + 1
        → b ≤ length src
        → Answer init (integer a ∷ integer b ∷ vs)

  pub push_capture-Runs :
      (e i : ℕ) (n : CapLen) → LiesIn src e i n → Runs (λ _. Unit {0}) (push_capture src i n)
  unfolding push_capture
  push_capture-Runs e i unfinished h = raises tt
  push_capture-Runs e i position h = returns tt
  push_capture-Runs e i (closed n) h = rw (le→leb (i + n) (length src) h) (returns tt)

  push_all-Runs :
      (e : ℕ) (caps : Captures) → All (Inside src e) caps → Runs (λ _. Unit {0}) (push_all src caps)
  unfolding push_all
  push_all-Runs e [] h = returns tt
  push_all-Runs e (c ∷ caps) h =
      Runs-bind (push_capture-Runs e c.init c.len h.0)
        (λ v _. Runs-bind (push_all-Runs e caps h.1) (λ vs _. returns tt))

  pub push_captures-Runs :
      (e : ℕ) (caps : Captures) (whole : Option (ℕ × ℕ))
      → All (Inside src e) caps
      → Runs (λ _. Unit {0}) (push_captures src caps whole)
  unfolding push_captures
  push_captures-Runs e [] none h = returns tt
  push_captures-Runs e [] (some place) h = returns tt
  push_captures-Runs e (c ∷ caps) whole h = push_all-Runs e (c ∷ caps) h

  push_place-Runs :
      (init : ℕ) (place : Option Place)
      → Placed init place
      → Runs (Answer init) (push_place src true place)
  unfolding push_place
  push_place-Runs init none no_place = returns not_found
  push_place-Runs init (some (s, e, caps)) (at_place h k l fits) =
      Runs-bind (push_captures-Runs e caps none fits.0)
        (λ vs _. returns (found (omega arith) (omega arith) l))

module _ (t : Ctype) (src pat : List ℕ) where
  plain-Answer :
      (init : ℕ)
      → init ≤ length src
      → (o : Option ℕ) → Located (drop init src) pat o
      → Answer src init (push_plain pat init o)
  plain-Answer init h none absent = not_found
  plain-Answer init h (some i) (present k) =
      found (omega arith) (omega arith) (omega (arith, k, length-drop init src))

  pub anchored : (c : ℕ) → InText pat 0 c → (if c == b'^' then 1 else 0) ≤ length pat
  anchored c inside = elim (Bool-cases (c == b'^')) [
    | inl e ↦ let more = inside (omega (arith, eqb→eq c b'^' e)) in rw e (omega arith)
    | inr e ↦ rw e (omega arith)
  ]

  -- What a round of the search does with the result of `match`.
  after_match :
      (n : ℕ) (anchor : Bool) (p s1 : ℕ) (r : Found)
      → Good src s1 [] r
      → (s1 < length src → Runs (Placed src s1) (search_loop t src pat n anchor p (s1 + 1)))
      → Runs (Placed src s1) (elim r.0 [
        | some e ↦ ok (some (s1, e, r.1))
        | none ↦
            if ltb s1 (length src) && not anchor
            then search_loop t src pat n anchor p (s1 + 1)
            else ok none
      ])
  after_match n anchor p s1 (some e, caps) (matched k l fits) go =
      returns (at_place (omega arith) k l fits)
  after_match n anchor p s1 (none, caps) (failed e) go =
      Runs-if (ltb s1 (length src) && not anchor)
        (λ lt. go (ltb→lt s1 (length src) (and_left (ltb s1 (length src)) (not anchor) lt)))
        (λ _. returns no_place)

  Placed-earlier : (i j : ℕ) (o : Option Place) → i ≤ j → Placed src j o → Placed src i o
  Placed-earlier i j none h no_place = no_place
  Placed-earlier i j (some (s, e, caps)) h (at_place k l m fits) = at_place (omega arith) l m fits

  search_loop-Runs :
      (n : ℕ) (anchor : Bool) (p s1 : ℕ)
      → p ≤ length pat
      → s1 ≤ length src
      → length src < n + s1
      → Runs (Placed src s1) (search_loop t src pat n anchor p s1)
  unfolding search_loop
  search_loop-Runs zero anchor p s1 h k fuel = absurd (omega arith)
  search_loop-Runs (suc n) anchor p s1 h k fuel =
      Runs-bind
        (match-Good t src pat (suc (length pat)) p s1 [] h (omega arith) k (tt, omega arith))
        (λ r good. after_match n anchor p s1 r good (λ lt.
          Runs-map (search_loop-Runs n anchor p (s1 + 1) h (omega arith) (omega arith))
            (λ o. Placed-earlier s1 (s1 + 1) o (omega arith))))

  find_pattern-Runs :
      (init : ℕ) → init ≤ length src → Runs (Placed src init) (find_pattern t src pat init)
  unfolding find_pattern
  find_pattern-Runs init h = Runs-bind (byte-Runs pat 0 (omega arith)) (λ c inside.
      search_loop-Runs (suc (length src)) (c == b'^') (if c == b'^' then 1 else 0) init
        (anchored c inside) h (omega arith))

  -- `string.find` on any two strings, from any position, ends without a read outside of them. It reports
  -- an error, or returns `nil`, or a first and a last position with further values: the first lies
  -- behind the start of the search, the last is at most one below it at the least, and lies in the
  -- subject.
  pub str_find-Answer :
      (i : Option ℤ) (explicit : Bool)
      → Runs (Answer src (find_start src i)) (str_find_aux t src pat true i explicit)
  unfolding str_find_aux
  str_find-Answer i explicit =
      Runs-if (explicit || no_specials pat)
        (λ _. rw (lmemfind-first_at (drop (find_start src i) src) pat) (
          returns (
            plain-Answer (find_start src i) (find_start-le src i) _
              (first_at-Located (drop (find_start src i) src) pat))))
        (λ _.
          Runs-bind (find_pattern-Runs (find_start src i) (find_start-le src i))
            (push_place-Runs src (find_start src i)))
