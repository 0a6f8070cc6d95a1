-- ===== src/Lua/Find/Plain.antt =====
-- lua515/lstrlib.c: `lmemfind` finds the first place, and so does `match` for a pattern without special
-- characters, so that the shortcut of `str_find_aux` changes nothing.
use lua_engine.Base.{
  ℕ, zero, suc, ◌+◌, ◌-◌, ◌<◌, ◌≡◌, refl, sym, ap, ◌∙◌, Bool, true, false, ◌&&◌, Option, none, some,
  List, [], ◌∷◌, length, arith, drop, take, Bool-cases, inl, inr, ltb, ltb→lt, ◌==◌, if◌then◌else◌,
  length-drop,
}
use lua_engine.Lua.Classes.{ok}
use lua_engine.Lua.Captures.{same_bytes}
use lua_engine.Lua.Find.{memchr, find_loop, lmemfind}

-- The text begins with the other one.
abbrev pub starts : List ℕ → List ℕ → Bool
starts xs [] = true
starts [] (c ∷ cs) = false
starts (x ∷ xs) (c ∷ cs) = (x == c) && starts xs cs

abbrev pub shift : ℕ → Option ℕ → Option ℕ
shift n none = none
shift n (some i) = some (i + n)

-- The first place of the text where the other one begins.
abbrev pub first_at : List ℕ → List ℕ → Option ℕ
first_at [] cs = if starts [] cs then some 0 else none
first_at (x ∷ xs) cs = if starts (x ∷ xs) cs then some 0 else shift 1 (first_at xs cs)

pub shift-shift : (m n : ℕ) (o : Option ℕ) → shift m (shift n o) ≡ shift (m + n) o
shift-shift m n none = refl
shift-shift m n (some i) = ap some (omega arith)

shift_zero : (o : Option ℕ) → shift 0 o ≡ o
shift_zero none = refl
shift_zero (some i) = ap some (omega arith)

starts-same_bytes : (xs cs : List ℕ) → same_bytes (take (length cs) xs) cs ≡ starts xs cs
starts-same_bytes xs [] = refl
starts-same_bytes [] (c ∷ cs) = refl
starts-same_bytes (x ∷ xs) (c ∷ cs) = ap (λ b. (x == c) && b) (starts-same_bytes xs cs)

pub short-starts : (xs cs : List ℕ) → length xs < length cs → starts xs cs ≡ false
short-starts xs [] h = absurd (omega arith)
short-starts [] (c ∷ cs) h = refl
short-starts (x ∷ xs) (c ∷ cs) h = rw (short-starts xs cs (omega arith)) (and_false (x == c))
  where
    and_false : (b : Bool) → (b && false) ≡ false
    and_false true = refl
    and_false false = refl

short-first_at : (xs cs : List ℕ) → length xs < length cs → first_at xs cs ≡ none
short-first_at [] cs h = rw (short-starts [] cs h) refl
short-first_at (x ∷ xs) cs h =
    rw (short-starts (x ∷ xs) cs h, short-first_at xs cs (omega arith)) refl

-- What `memchr` says of the first place of a text that begins with the byte.
data Scanned (xs : List ℕ) (c n : ℕ) (cs : List ℕ) : Option ℕ → Type 0 where
  missing : (n ≡ length xs - length cs → first_at xs (c ∷ cs) ≡ none) → Scanned xs c n cs none
  hit :
      {i : ℕ}
      → i < length xs
      → first_at xs (c ∷ cs) ≡ (
          if starts (drop (suc i) xs) cs
          then some i
          else shift (suc i) (first_at (drop (suc i) xs) (c ∷ cs)))
      → Scanned xs c n cs (some i)

Scanned-suc :
    (x : ℕ) (xs : List ℕ) (c n : ℕ) (cs : List ℕ) (o : Option ℕ)
    → (x == c) ≡ false
    → Scanned xs c n cs o
    → Scanned (x ∷ xs) c (suc n) cs (elim o [ none ↦ none | some i ↦ some (suc i) ])
Scanned-suc x xs c n cs none ne (missing h) = missing (λ e. rw (ne, h (omega arith)) refl)
Scanned-suc x xs c n cs (some i) ne (hit lt h) =
    hit (omega arith) (rw (ne, h) (moved (starts (drop (suc i) xs) cs) _))
  where
    moved :
        (b : Bool) (o : Option ℕ)
        → shift 1 (if b then some i else shift (suc i) o)
          ≡ (if b then some (suc i) else shift (suc (suc i)) o)
    moved true o = ap some (omega arith)
    moved false o = shift-shift 1 (suc i) o ∙ ap (λ k. shift k o) (omega arith)

memchr-Scanned : (xs : List ℕ) (c n : ℕ) (cs : List ℕ) → Scanned xs c n cs (memchr xs c n)
memchr-Scanned [] c zero cs = missing (λ e. refl)
memchr-Scanned [] c (suc n) cs = missing (λ e. refl)
memchr-Scanned (x ∷ xs) c zero cs = missing (λ e. short-first_at (x ∷ xs) (c ∷ cs) (omega arith))
memchr-Scanned (x ∷ xs) c (suc n) cs = elim (Bool-cases (x == c)) [
  | inl e ↦ rw e (hit (omega arith) (rw e refl))
  | inr e ↦ rw e (Scanned-suc x xs c n cs (memchr xs c n) e (memchr-Scanned xs c n cs))
]

-- The rounds of `find_loop` with `n` of fuel find the first place.
abbrev FindsIn : ℕ → ℕ → List ℕ → Type 0
FindsIn n c cs =
    (xs : List ℕ) (at : ℕ)
    → length xs < n
    → find_loop n xs (length xs - length cs) c cs at ≡ ok (shift at (first_at xs (c ∷ cs)))

module _ (n c : ℕ) (cs : List ℕ) (finds : FindsIn n c cs) (xs : List ℕ) (at : ℕ)
    (h : length xs < suc n) where
  decide :
      (i : ℕ) (b : Bool)
      → i < length xs
      → (if b
          then ok (some (at + i))
          else find_loop n (drop (suc i) xs) (length xs - length cs - suc i) c cs (at + suc i))
        ≡ ok (shift at (if b then some i else shift (suc i) (first_at (drop (suc i) xs) (c ∷ cs))))
  decide i true lt = ap (λ k. ok (some k)) (omega arith)
  decide i false lt =
      let left : length xs - length cs - suc i ≡ length (drop (suc i) xs) - length cs =
        omega (arith, length-drop (suc i) xs) in
      rw left (
        finds (drop (suc i) xs) (at + suc i) (omega (arith, length-drop (suc i) xs))
        ∙ ap ok (sym (shift-shift at (suc i) (first_at (drop (suc i) xs) (c ∷ cs)))))

  find_step :
      (o : Option ℕ)
      → Scanned xs c (length xs - length cs) cs o
      → elim o [
        | none ↦ ok none
        | some i ↦
            if same_bytes (take (length cs) (drop (suc i) xs)) cs
            then ok (some (at + i))
            else find_loop n (drop (suc i) xs) (length xs - length cs - suc i) c cs (at + suc i)
      ]
        ≡ ok (shift at (first_at xs (c ∷ cs)))
  find_step none (missing k) = rw (k refl) refl
  find_step (some i) (hit lt k) =
      rw (k, starts-same_bytes (drop (suc i) xs) cs) (decide i (starts (drop (suc i) xs) cs) lt)

find_loop-first_at : (n c : ℕ) (cs : List ℕ) → FindsIn n c cs
unfolding find_loop
find_loop-first_at zero c cs xs at h = absurd (omega arith)
find_loop-first_at (suc n) c cs xs at h =
    find_step n c cs (find_loop-first_at n c cs) xs at h (memchr xs c (length xs - length cs))
      (memchr-Scanned xs c (length xs - length cs) cs)

-- The search for a text in another one returns, and what it returns is the first place where the other
-- text begins with it, or nothing when there is none.
pub lmemfind-first_at : (xs cs : List ℕ) → lmemfind xs cs ≡ ok (first_at xs cs)
unfolding lmemfind
lmemfind-first_at [] [] = refl
lmemfind-first_at (x ∷ xs) [] = refl
lmemfind-first_at xs (c ∷ cs) = elim (Bool-cases (ltb (length xs) (suc (length cs)))) [
  | inl e ↦
      let short = ltb→lt (length xs) (suc (length cs)) e in
      rw (e, short-first_at xs (c ∷ cs) short) refl
  | inr e ↦ rw e (
      find_loop-first_at (suc (length xs)) c cs xs 0 (omega arith)
      ∙ ap ok (shift_zero (first_at xs (c ∷ cs))))
]
