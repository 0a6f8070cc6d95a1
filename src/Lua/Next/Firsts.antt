-- ===== src/Lua/Next/Firsts.antt =====
-- lua515/ltable.c: the entries of a traversal in their order, and the first of them.
use lua_engine.Base.{
  ℕ, zero, suc, ◌+◌, ◌-◌, ◌≤◌, ◌<◌, ◌≡◌, refl, sym, ap, ap₂, ◌∙◌, subst, Option, none, some, List,
  [], ◌∷◌, arith, Option-cases, inl, inr,
}
use lua_engine.Lua.Next.{first_of}

-- The entries, by their numbers.
module _ {K V : Type 0} (entry_at : ℕ → Option (K × V)) where
  abbrev cons_entry : Option (K × V) → List (K × V) → List (K × V)
  cons_entry none es = es
  cons_entry (some e) es = e ∷ es

  -- The entries from a number on, for so many numbers.
  unfoldable pub entries_from : ℕ → ℕ → List (K × V)
  entries_from zero j = []
  entries_from (suc f) j = cons_entry (entry_at j) (entries_from f (suc j))

  -- The first entry from a number on.
  unfoldable pub first_from : ℕ → ℕ → Option (K × V)
  first_from zero j = none
  first_from (suc f) j = first_of (entry_at j) (first_from f (suc j))

  -- The first entry, and the others behind it.
  pub data Firsts (n j : ℕ) : Option (K × V) → Type 0 where
    no_entry : entries_from n j ≡ [] → Firsts n j none
    first_entry :
        (j' : ℕ) {k : K} {v : V}
        → entry_at j' ≡ some (k, v)
        → j ≤ j'
        → j' < j + n
        → entries_from n j ≡ (k, v) ∷ entries_from (j + n - suc j') (suc j')
        → Firsts n j (some (k, v))

  Firsts-later :
      (n j : ℕ) (r : Option (K × V)) → entry_at j ≡ none → Firsts n (suc j) r → Firsts (suc n) j r
  unfolding entries_from
  Firsts-later n j none e (no_entry q) = no_entry (ap₂ cons_entry e q)
  Firsts-later n j (some (k, v)) e (first_entry j' f le lt q) =
      first_entry j' f (omega arith) (omega arith) (
        ap₂ cons_entry e q
        ∙ ap (λ m. (k, v) ∷ entries_from m (suc j')) {x = suc j + n - suc j'}
            {y = j + suc n - suc j'} (omega arith))

  pub first_from-Firsts : (n j : ℕ) → Firsts n j (first_from n j)
  unfolding first_from entries_from
  first_from-Firsts zero j = no_entry refl
  first_from-Firsts (suc n) j = elim (Option-cases (entry_at j)) [
    | inl e ↦
        subst (Firsts (suc n) j) (ap (λ r. first_of r (first_from n (suc j))) (sym e))
          (Firsts-later n j _ e (first_from-Firsts n (suc j)))
    | inr ((k, v), e) ↦
        subst (Firsts (suc n) j) (ap (λ r. first_of r (first_from n (suc j))) (sym e)) (
          first_entry j e (omega arith) (omega arith) (
            ap (λ r. cons_entry r (entries_from n (suc j))) e
            ∙ ap (λ m. (k, v) ∷ entries_from m (suc j)) {x = n} {y = j + suc n - suc j}
                (omega arith)))
  ]
