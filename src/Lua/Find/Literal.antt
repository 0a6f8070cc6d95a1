-- ===== src/Lua/Find/Literal.antt =====
-- lua515/lstrlib.c: `match` at a plain character of a pattern.
use lua_engine.Base.{
  ℕ, zero, suc, ◌+◌, ◌≤◌, ◌≡◌, ◌≢◌, refl, sym, subst, Bool, true, false, not, ◌&&◌, some, List, [],
  ◌∷◌, length, All, arith, drop, get_elem?, get_elem?-none, Bool-cases, inl, inr, ltb, lt→ltb, ◌==◌,
  eqb→eq, eq→eqb, ne→eqb, if◌then◌else◌,
}
use lua_engine.Lua.Classes.{ok, Ctype, byte, classend, singlematch}
use lua_engine.Lua.Captures.{Captures}
use lua_engine.Lua.Pattern.{Matcher, fail, single_at, item, match_body}
use lua_engine.Lua.Find.{is_special}

-- A character that stands for itself. A closing parenthesis does not, though it is not in `SPECIALS`.
abbrev pub is_plain : ℕ → Bool
is_plain c = not (c == 0) && not (c == b')') && not (is_special c)

abbrev pub AllPlain : List ℕ → Type 0
AllPlain cs = All (λ c. is_plain c ≡ true) cs

pub plain_ne : (c d : ℕ) → is_plain c ≡ true → is_plain d ≡ false → (c == d) ≡ false
plain_ne c d h k = elim (Bool-cases (c == d)) [
  | inl e ↦
      let clash : is_plain c ≡ false = subst (λ x. is_plain x ≡ false) (sym (eqb→eq c d e)) k in
      absurd (cc)
  | inr e ↦ e
]

pub drop-cons :
    {A : Type 0} (xs : List A) (i : ℕ) (y : A) (ys : List A)
    → drop i xs ≡ y ∷ ys
    → (get_elem? xs i ≡ some y) × (drop (suc i) xs ≡ ys)
drop-cons [] zero y ys h = absurd (cc)
drop-cons [] (suc i) y ys h = absurd (cc)
drop-cons (x ∷ xs) zero y ys h = (cc, cc)
drop-cons (x ∷ xs) (suc i) y ys h = drop-cons xs i y ys h

-- The rest of a list from an index on.
abbrev pub RestAt : List ℕ → ℕ → List ℕ → Type 0
RestAt xs i rest = (drop i xs ≡ rest) × (i + length rest ≡ length xs)

pub byte-cons : (xs : List ℕ) (i c : ℕ) (cs : List ℕ) → RestAt xs i (c ∷ cs) → byte xs i ≡ ok c
byte-cons xs i c cs h = rw (byte, (drop-cons xs i c cs h.0).0) refl

pub byte-nil : (xs : List ℕ) (i : ℕ) → RestAt xs i [] → byte xs i ≡ ok 0
byte-nil xs i h =
    rw (byte, get_elem?-none xs i (omega (arith, h.1)), eq→eqb i (length xs) (omega (arith, h.1)))
      refl

pub RestAt-tail :
    (xs : List ℕ) (i c : ℕ) (cs : List ℕ) → RestAt xs i (c ∷ cs) → RestAt xs (i + 1) cs
RestAt-tail xs i c cs h = (
  subst (λ j. drop j xs ≡ cs) {x = suc i} (omega arith) (drop-cons xs i c cs h.0).1,
  omega (arith, h.1),
)

pub le_false : (a b : ℕ) → b ≤ a → ltb a b ≡ false
le_false a b h = ground arith

pub not_special : (c : ℕ) → is_plain c ≡ true → is_special c ≡ false
not_special c h = last_of (not (c == 0)) (not (c == b')')) (is_special c) h
  where
    last_of : (x y z : Bool) → (x && y && not z) ≡ true → z ≡ false
    last_of true true true h = absurd (cc)
    last_of true true false h = refl
    last_of true false z h = absurd (cc)
    last_of false y z h = absurd (cc)

pub eqb_sym : (a b : ℕ) → (a == b) ≡ (b == a)
eqb_sym a b = ground arith

-- What follows a plain character in a plain pattern is not a suffix of an item.
pub next_byte :
    (pat : List ℕ) (p : ℕ) (cs : List ℕ)
    → RestAt pat p cs
    → AllPlain cs
    → (e : ℕ) × (byte pat p ≡ ok e) × ((d : ℕ) → is_plain d ≡ false → d ≢ 0 → (e == d) ≡ false)
next_byte pat p [] h k = (0, byte-nil pat p h, λ d no ne. ne→eqb 0 d (λ e. ne (sym e)))
next_byte pat p (c ∷ cs) h k = (c, byte-cons pat p c cs h, λ d no ne. plain_ne c d k.0 no)

module _ (t : Ctype) (src pat : List ℕ) (rec : Matcher) where
  -- `match` goes to its `default` at a plain character.
  pub match_body-item :
      (s p c : ℕ) (cs : List ℕ) (caps : Captures)
      → RestAt pat p (c ∷ cs)
      → is_plain c ≡ true
      → match_body t src pat rec s p caps ≡ item t src pat rec s p caps
  unfolding match_body
  match_body-item s p c cs caps h k =
      rw
        (
          byte-cons pat p c cs h,
          plain_ne c b'(' k refl,
          plain_ne c b')' k refl,
          plain_ne c b'%' k refl,
          plain_ne c 0 k refl,
          plain_ne c b'$' k refl,
        )
        refl

  pub classend-plain :
      (p c : ℕ) (cs : List ℕ)
      → RestAt pat p (c ∷ cs)
      → is_plain c ≡ true
      → classend pat p ≡ ok (p + 1)
  unfolding classend
  classend-plain p c cs h k =
      rw (byte-cons pat p c cs h, plain_ne c b'%' k refl, plain_ne c b'[' k refl) refl

  pub single_at-cons :
      (s p x c : ℕ) (xs cs : List ℕ)
      → RestAt src s (x ∷ xs)
      → RestAt pat p (c ∷ cs)
      → is_plain c ≡ true
      → single_at t src pat s p (p + 1) ≡ ok (c == x)
  unfolding single_at singlematch
  single_at-cons s p x c xs cs hs h k =
      rw
        (
          lt→ltb s (length src) (omega (arith, hs.1)),
          byte-cons src s x xs hs,
          byte-cons pat p c cs h,
          plain_ne c b'.' k refl,
          plain_ne c b'%' k refl,
          plain_ne c b'[' k refl,
        )
        refl

  pub single_at-nil : (s p ep : ℕ) → RestAt src s [] → single_at t src pat s p ep ≡ ok false
  unfolding single_at
  single_at-nil s p ep h = rw (le_false s (length src) (omega (arith, h.1))) refl

  pub match_body-nil :
      (s p : ℕ) (caps : Captures)
      → RestAt pat p []
      → match_body t src pat rec s p caps ≡ ok (some s, caps)
  unfolding match_body
  match_body-nil s p caps h = rw (byte-nil pat p h) refl

  pub item-plain :
      (s p c : ℕ) (cs : List ℕ) (caps : Captures) (m : Bool)
      → RestAt pat p (c ∷ cs)
      → AllPlain (c ∷ cs)
      → single_at t src pat s p (p + 1) ≡ ok m
      → item t src pat rec s p caps ≡ (if m then rec (s + 1) (p + 1) caps else fail caps)
  unfolding item
  item-plain s p c cs caps m h k tested =
      let (e, read, other) = next_byte pat (p + 1) cs (RestAt-tail pat p c cs h) k.1 in
      rw
        (
          classend-plain p c cs h k.0,
          tested,
          read,
          other b'?' refl (omega arith),
          other b'*' refl (omega arith),
          other b'+' refl (omega arith),
          other b'-' refl (omega arith),
        )
        refl
