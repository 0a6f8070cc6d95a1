-- ===== src/Lua/Checks/Reach.antt =====
-- lua515/ldebug.c: which words of the code are instructions, and which are the counts behind one.
use lua_engine.Base.{
  ℕ, zero, suc, ◌+◌, ◌%◌, ◌≤◌, ◌<◌, ◌≡◌, ◌⊎◌, inl, inr, refl, true, false, some, List, [], ◌∷◌,
  length, get_elem?, arith, if◌then◌else◌, Bool-cases,
}
use lua_engine.Lua.Checks.{takes_count, setlist_run}
use lua_engine.Lua.Checks.Verdicts.{Sure, accepts, Sure-bind, Sure-if, Sure-read}

-- The number of words that belong to the instruction `i` without being instructions.
abbrev pub counts : ℕ → ℕ
counts i = if takes_count i then 1 else 0

-- `Reach n m`: from the instruction at `n` on, each behind the last, there is one at `m`.
pub data Reach (code : List ℕ) : ℕ → ℕ → Type 0 where
  here : {n : ℕ} → Reach code n n
  next :
      {n i k m : ℕ}
      → get_elem? code n ≡ some i
      → k ≡ n + 1 + counts i
      → Reach code k m
      → Reach code n m

module _ (code : List ℕ) where
  pub Reach-after :
      {n m i k : ℕ}
      → Reach code n m
      → get_elem? code m ≡ some i
      → k ≡ m + 1 + counts i
      → Reach code n k
  Reach-after here e h = next e h here
  Reach-after (next e h r) e' h' = next e h (Reach-after r e' h')

  -- The word at `n` is the count of the instruction before it.
  pub record IsCount (n : ℕ) : Type 0 where
    pub before : ℕ
    pub word : ℕ
    pub start : Reach code 0 before
    pub here_is : get_elem? code before ≡ some word
    pub takes : takes_count word ≡ true
    pub place : n ≡ before + 1

  IsCount-after : {n : ℕ} → IsCount n → Reach code 0 (suc n)
  IsCount-after c = Reach-after c.start c.here_is (rw (c.takes) (omega (arith, c.place)))

  after_start :
      {n i : ℕ}
      → Reach code 0 n
      → get_elem? code n ≡ some i
      → takes_count i ≡ false
      → Reach code 0 (suc n)
  after_start r e h = Reach-after r e (rw h (omega arith))

  IsCount-behind :
      {n i : ℕ}
      → Reach code 0 n
      → get_elem? code n ≡ some i
      → takes_count i ≡ true
      → IsCount (suc n)
  IsCount-behind {n} {i} r e h = record {
    before = n;
    word = i;
    start = r;
    here_is = e;
    takes = h;
    place = omega arith;
  }

  element : (xs : List ℕ) (n : ℕ) → n < length xs → (i : ℕ) × (get_elem? xs n ≡ some i)
  element [] n h = absurd (omega arith)
  element (x ∷ xs) zero h = (x, refl)
  element (x ∷ xs) (suc n) h = element xs n (omega arith)

  -- Each word is an instruction or the count of one.
  word_cases : (n : ℕ) → n ≤ length code → Reach code 0 n ⊎ IsCount n
  word_cases zero h = inl here
  word_cases (suc n) h =
      let (i, e) = element code n (omega arith) in
      elim (word_cases n (omega arith)) [
        | inl r ↦ elim (Bool-cases (takes_count i)) [
          | inl t ↦ inr (IsCount-behind r e t)
          | inr t ↦ inl (after_start r e t)
        ]
        | inr c ↦ inl (IsCount-after c)
      ]

  -- What the number of rounds says of the word at `n`.
  abbrev pub Parity : ℕ → ℕ → Type 0
  Parity n j = ((j % 2 ≡ 0) × Reach code 0 n) ⊎ ((j % 2 ≡ 1) × IsCount n)

  Parity-suc :
      {n i : ℕ} (j : ℕ)
      → get_elem? code n ≡ some i
      → takes_count i ≡ true
      → Parity n j
      → Parity (suc n) (j + 1)
  Parity-suc j e t (inl (h, r)) = inr (omega arith, IsCount-behind r e t)
  Parity-suc j e t (inr (h, c)) = inl (omega arith, IsCount-after c)

  start_behind :
      {n i : ℕ}
      → n < length code
      → get_elem? code n ≡ some i
      → takes_count i ≡ false
      → Reach code 0 (suc n)
  start_behind {n} {i} h e t = elim (word_cases n (omega arith)) [
    | inl r ↦ after_start r e t
    | inr c ↦ IsCount-after c
  ]

  pub setlist_run-Parity : (n : ℕ) → n ≤ length code → Sure (Parity n) (setlist_run code n)
  unfolding setlist_run
  setlist_run-Parity zero h = accepts (inl (refl, here))
  setlist_run-Parity (suc n) h = Sure-bind (Sure-read code n (omega arith)) (λ i e.
      Sure-if (takes_count i)
        (λ t. Sure-bind (setlist_run-Parity n (omega arith)) (λ j p. accepts (Parity-suc j e t p)))
        (λ t. accepts (inl (refl, start_behind (omega arith) e t))))

  -- An even number of rounds means an instruction.
  pub Parity-even : {n : ℕ} (j : ℕ) → Parity n j → j % 2 ≡ 0 → Reach code 0 n
  Parity-even j (inl (h, r)) e = r
  Parity-even j (inr (h, c)) e = absurd (omega arith)
