-- ===== src/Lua/Checks/Verdicts.antt =====
-- lua515/ldebug.c: a verdict that is no fault, with what an acceptance means.
use lua_engine.Base.{
  ℕ, zero, suc, ◌<◌, ◌≡◌, refl, subst, Bool, true, false, some, List, [], ◌∷◌, length, get_elem?,
  arith, if◌then◌else◌,
}
use lua_engine.Lua.Checks.{Verdict, accept, reject, ◌>>=◌, ◌>>◌, check, read_at}

pub data Sure {A : Type 0} (P : A → Type 0) : Verdict A → Type 0 where
  accepts : {a : A} → P a → Sure P (accept a)
  rejects : Sure P reject

module _ {A : Type 0} {P : A → Type 0} where
  pub Sure-bind :
      {B : Type 0} {Q : B → Type 0} {v : Verdict A} {k : A → Verdict B}
      → Sure P v
      → ((a : A) → P a → Sure Q (k a))
      → Sure Q (v >>= k)
  Sure-bind (accepts h) k = k _ h
  Sure-bind rejects k = rejects

  pub Sure-map : {Q : A → Type 0} {v : Verdict A} → Sure P v → ((a : A) → P a → Q a) → Sure Q v
  Sure-map (accepts h) k = accepts (k _ h)
  Sure-map rejects k = rejects

  pub Sure-if :
      (b : Bool) {v w : Verdict A}
      → (b ≡ true → Sure P v)
      → (b ≡ false → Sure P w)
      → Sure P (if b then v else w)
  Sure-if true h k = h refl
  Sure-if false h k = k refl

  pub Sure-inv : {a : A} → Sure P (accept a) → P a
  Sure-inv (accepts h) = h

  pub Sure-accept : {v : Verdict A} {a : A} → Sure P v → v ≡ accept a → P a
  Sure-accept s e = Sure-inv (subst (Sure P) e s)

pub Sure-check : (b : Bool) → Sure (λ _. b ≡ true) (check b)
Sure-check true = accepts refl
Sure-check false = rejects

pub Sure-guard :
    {B : Type 0} {Q : B → Type 0} (b : Bool) {v : Verdict B}
    → (b ≡ true → Sure Q v)
    → Sure Q (check b >> v)
Sure-guard true h = h refl
Sure-guard false h = rejects

pub Sure-read :
    {A : Type 0} (xs : List A) (i : ℕ)
    → i < length xs
    → Sure (λ x. get_elem? xs i ≡ some x) (read_at xs i)
Sure-read [] i h = absurd (omega arith)
Sure-read (x ∷ xs) zero h = accepts refl
Sure-read (x ∷ xs) (suc i) h = Sure-read xs i (omega arith)
