-- ===== src/Lua/Checker/Accepted.antt =====
-- lua515/ldebug.c: whole runs of `symbexec`, and the code that `luaG_checkcode` accepts.
use lua_engine.Base.{
  ℕ, zero, suc, ◌+◌, ◌-◌, ◌≤◌, ◌<◌, ◌≡◌, ◌≢◌, refl, Option, none, some, List, [], ◌∷◌, length,
  get_elem?, arith, ltb, ltb→lt, Bool-cases, inl, inr,
}
use lua_engine.Lua.Chunk.{Info, Protos}
use lua_engine.Lua.Opcode.Modes.{OpCode}
use lua_engine.Lua.Checks.{
  Verdict, accept, reject, fault, ◌>>=◌, read_at, precheck, size_code, no_reg,
}
use lua_engine.Lua.Checks.Verdicts.{Sure, accepts, rejects, Sure-bind, Sure-map, Sure-read}
use lua_engine.Lua.Checks.Reach.{Reach, here, next}
use lua_engine.Lua.Checks.Operands.{Closed, precheck-Sure}
use lua_engine.Lua.Checker.{Trace, at, round, rounds, symbexec}
use lua_engine.Lua.Checker.Operations.{Fits, After, round-Sure}

module _ (f : Info) (fs : Protos) (lastpc reg : ℕ) where
  abbrev continue : ℕ → Verdict Trace → Option (Verdict ℕ)
  continue n v = elim v [
    | accept t' ↦ rounds f fs lastpc reg n t'
    | reject ↦ some reject
    | fault ↦ some fault
  ]

  -- The end of a run: within the fuel, and no fault.
  abbrev Ends : Option (Verdict ℕ) → Type 0
  Ends r = (v : Verdict ℕ) × (r ≡ some v) × Sure (λ last. last < size_code f) v

  continue-Ends :
      {t : Trace} (n : ℕ) (v : Verdict Trace)
      → Sure (After f fs lastpc reg t) v
      → ((t' : Trace) → After f fs lastpc reg t t' → Ends (rounds f fs lastpc reg n t'))
      → Ends (continue n v)
  continue-Ends n v (accepts {a = t'} g) ih = ih t' g
  continue-Ends n v rejects ih = (reject, refl, rejects)

  rounds-Ends :
      (n : ℕ) (t : Trace)
      → lastpc ≤ size_code f
      → Closed f
      → t.last < size_code f
      → 0 < n
      → lastpc < n + t.pc
      → Ends (rounds f fs lastpc reg n t)
  unfolding rounds
  rounds-Ends zero t b closed h some_fuel fuel = absurd (omega arith)
  rounds-Ends (suc n) t b closed h some_fuel fuel = elim (Bool-cases (ltb t.pc lastpc)) [
    | inl e ↦
        let going = ltb→lt t.pc lastpc e in
        rw (rounds, e)
          (continue-Ends n (round f fs lastpc reg t)
            (round-Sure f fs lastpc reg t closed (omega arith) h)
            (λ t' a.
              rounds-Ends n t' b closed a.marked (omega (arith, a.later)) (omega (arith, a.later))))
    | inr e ↦ rw (rounds, e) (accept t.last, refl, accepts h)
  ]

  abbrev instruction_at : Option (Verdict ℕ) → Option (Verdict ℕ)
  instruction_at r = elim r [ none ↦ none | some v ↦ some (v >>= read_at f.code) ]

  -- A verdict that is no fault.
  abbrev NoFault : Option (Verdict ℕ) → Type 0
  NoFault r = (v : Verdict ℕ) × (r ≡ some v) × (v ≢ fault)

  not-fault : {v : Verdict ℕ} → Sure (λ _. Unit {0}) v → v ≢ fault
  not-fault (accepts h) e = cc
  not-fault rejects e = cc

  instruction_at-NoFault : (r : Option (Verdict ℕ)) → Ends r → NoFault (instruction_at r)
  instruction_at-NoFault r (v, e, s) = rw e (
    v >>= read_at f.code,
    refl,
    not-fault (Sure-bind s (λ last l. Sure-map (Sure-read f.code last l) (λ _ _. tt))),
  )

  from_precheck :
      (v : Verdict (Unit {0}))
      → Sure (λ _. Closed f) v
      → (Closed f
          → NoFault (instruction_at (rounds f fs lastpc reg (suc lastpc) (at 0 (size_code f - 1)))))
      → NoFault (elim v [
        | reject ↦ some reject
        | fault ↦ some fault
        | accept _ ↦ instruction_at (rounds f fs lastpc reg (suc lastpc) (at 0 (size_code f - 1)))
      ])
  from_precheck (accept u) (accepts c) k = k c
  from_precheck reject s k = (reject, refl, λ e. cc)
  from_precheck fault s k = elim s [ ]

  -- Whatever the words of the code are, symbolic execution up to a position in the code ends within
  -- its fuel, and never reads outside of the code, the constants or the functions inside.
  pub symbexec-Ends :
      lastpc ≤ size_code f → (v : Verdict ℕ) × (symbexec f fs lastpc reg ≡ some v) × (v ≢ fault)
  unfolding symbexec
  symbexec-Ends b = from_precheck (precheck f) (precheck-Sure f) (λ c. instruction_at-NoFault _ (
      rounds-Ends (suc lastpc) (at 0 (size_code f - 1)) b c (omega (arith, c.0)) (omega arith)
        (omega arith)))

get_elem?-lt : (xs : List ℕ) (n i : ℕ) → get_elem? xs n ≡ some i → n < length xs
get_elem?-lt [] n i e = cc
get_elem?-lt (x ∷ xs) zero i e = omega arith
get_elem?-lt (x ∷ xs) (suc n) i e = omega (arith, get_elem?-lt xs n i e)

Reach-lt :
    (code : List ℕ) {n m i : ℕ} → Reach code n m → get_elem? code m ≡ some i → n < length code
Reach-lt code {i} here e = get_elem?-lt code _ i e
Reach-lt code (next {i = j} e' k r) e = get_elem?-lt code _ j e'

module _ (f : Info) (fs : Protos) where
  abbrev Good : ℕ → ℕ → Type 0
  Good i pc = (o : OpCode) × Fits f fs (size_code f) no_reg o i pc

  -- The parts of an accepting run.
  record Run (x : ℕ) : Type 0 where
    closed : Closed f
    last : ℕ
    runs :
        rounds f fs (size_code f) no_reg (suc (size_code f)) (at 0 (size_code f - 1))
        ≡ some (accept last)
