-- ===== src/Lua/Checker/Calls.antt =====
-- lua515/ldebug.c: the operations of `symbexec` with checks of their own: jumps, calls, closures.
use lua_engine.Base.{
  ℕ, ◌+◌, ◌-◌, ◌≤◌, ◌<◌, ◌≡◌, ◌≢◌, ◌⊎◌, inl, inr, refl, sym, ap, ◌∙◌, Bool, true, false, Option,
  none, some, get_elem?, arith, if◌then◌else◌, ltb, leb, ◌==◌, not, ◌&&◌, ltb→lt, eqb→eq, eqb→ne,
  Bool-cases, subst,
}
use lua_engine.Lua.Chunk.{Info, Protos}
use lua_engine.Lua.Chunk.Dump.{count}
use lua_engine.Lua.Opcode.{field_op, field_a, field_b, field_c, field_bx, get}
use lua_engine.Lua.Opcode.Modes.{OpCode, number, op_setlist, op_closure, op_vararg}
use lua_engine.Lua.Checks.{
  accept, ◌>>=◌, check, read_at, size_code, no_reg, is_vararg_bit, needs_arg, check_open_op,
}
use lua_engine.Lua.Checks.Verdicts.{
  Sure, accepts, Sure-bind, Sure-map, Sure-check, Sure-guard, Sure-if,
}
use lua_engine.Lua.Checks.Reach.{counts}
use lua_engine.Lua.Checks.Operands.{
  IsOpen, check_captures-Sure, nups_at-Sure, check_open_op-Sure, both, not-false,
}
use lua_engine.Lua.Checker.Conditions.{CallFits, OpFits, At}
use lua_engine.Lua.Checker.{
  Trace, at, mark, jump, check_call, check_setlist, check_closure, check_vararg,
}

module _ (f : Info) (fs : Protos) (lastpc reg : ℕ) where
  -- What a round makes of the state; without tracing it goes to the next instruction.
  pub record Moves (i : ℕ) (t t' : Trace) : Type 0 where
    pub onward : t.pc ≤ t'.pc
    pub marked : t'.last < size_code f
    pub plain : reg ≡ no_reg → t'.pc ≡ t.pc + counts i

  pub some_word : {i j : ℕ} → ◌≡◌ {A = Option ℕ} (some i) (some j) → i ≡ j
  some_word {i} e = ap (λ (o : Option ℕ). elim o [ none ↦ i | some k ↦ k ]) e

  -- The last word is a return, so another operation has a word behind it.
  pub word_behind : {o : OpCode} {i pc : ℕ} → At f o i pc → number o ≢ 30 → pc + 1 < size_code f
  word_behind {o} {i} {pc} w ne = elim (Bool-cases (pc + 1 == size_code f)) [
    | inl e ↦
        let at_end : size_code f - 1 ≡ pc = omega (arith, eqb→eq _ _ e) in
        let (some_code, (r, there, return_op), frame) = w.closed in
        let same : i ≡ r =
          some_word (sym (w.word) ∙ subst (λ n. get_elem? f.code n ≡ some r) at_end there) in
        absurd (ne (w.named ∙ ap (get field_op) same ∙ return_op))
    | inr e ↦ omega (arith, eqb→ne _ _ e, w.inside)
  ]

  pub counts-other : {o : OpCode} {i pc : ℕ} → At f o i pc → number o ≢ 34 → counts i ≡ 0
  counts-other w ne = ground (arith, w.named)

  pub stays : {i : ℕ} {t : Trace} → t.last < size_code f → counts i ≡ 0 → Moves i t t
  stays h c = record { onward = omega arith; marked = h; plain = λ _. omega arith }

  pub mark-Moves :
      {i : ℕ} {t : Trace} (b : Bool)
      → t.pc < size_code f
      → t.last < size_code f
      → counts i ≡ 0
      → Moves i t (mark f fs lastpc reg b t)
  mark-Moves true p h c = record { onward = omega arith; marked = p; plain = λ _. omega arith }
  mark-Moves false p h c = record { onward = omega arith; marked = h; plain = λ _. omega arith }

  pub jump_test :
      (pc d : ℕ)
      → (not (reg == no_reg) && ltb pc d && leb d lastpc) ≡ true
      → (pc < d) × (reg ≢ no_reg)
  jump_test pc d e = (ground arith, ground arith)

  pub jump-Moves :
      {i : ℕ} {t : Trace} (d : Option ℕ)
      → t.last < size_code f
      → counts i ≡ 0
      → Moves i t (jump f fs lastpc reg d t)
  unfolding jump
  jump-Moves none h c = stays h c
  jump-Moves {i} {t} (some d) h c =
      elim (Bool-cases (not (reg == no_reg) && ltb t.pc d && leb d lastpc)) [
        | inl e ↦
            let (later, tracing) = jump_test t.pc d e in
            rw e (record { onward = omega arith; marked = h; plain = λ r. absurd (tracing r) })
        | inr e ↦ rw e (stays h c)
      ]

  -- What `check_op` gives for an operation.
  abbrev pub Good : OpCode → ℕ → Trace → Trace → Type 0
  Good o i t t' = OpFits f fs o i t.pc × Moves i t t'

  pub arguments-Sure :
      (a b : ℕ)
      → a < f.maxstacksize
      → Sure
          (λ _. a + b ≤ f.maxstacksize)
          (if b == 0 then accept tt else check (ltb (a + b - 1) f.maxstacksize))
  arguments-Sure a b h =
      Sure-if (b == 0) (λ e. accepts (omega (arith, eqb→eq b 0 e)))
        (λ e. Sure-map (Sure-check _) (λ _ k. omega (arith, ltb→lt _ _ k, eqb→ne b 0 e)))

  pub returns-Sure :
      (pc a c : ℕ)
      → pc + 1 < size_code f
      → a < f.maxstacksize
      → Sure
          (λ _. (a + c ≤ f.maxstacksize + 1) × ((c ≢ 0) ⊎ IsOpen f (pc + 1)))
          (if c == 0
            then (read_at f.code (pc + 1) >>= check_open_op)
            else if c == 1
            then accept tt
            else check (ltb (a + c - 2) f.maxstacksize))
  returns-Sure pc a c p h =
      Sure-if (c == 0)
        (λ e.
          Sure-map (check_open_op-Sure f (pc + 1) p) (λ _ k. (omega (arith, eqb→eq c 0 e), inr k)))
        (λ e.
          let more = eqb→ne c 0 e in
          Sure-if (c == 1) (λ e'. accepts (omega (arith, eqb→eq c 1 e'), inl more))
            (λ e'.
              Sure-map (Sure-check _)
                (λ _ k. (omega (arith, ltb→lt _ _ k, more, eqb→ne c 1 e'), inl more))))

  pub check_call-Sure :
      {o : OpCode} (i : ℕ) (t : Trace)
      → At f o i t.pc
      → number o ≢ 30
      → number o ≢ 34
      → t.last < size_code f
      → Sure (λ t'. CallFits f i t.pc × Moves i t t') (check_call f fs lastpc reg i t)
  unfolding check_call
  check_call-Sure i t w n30 n34 h =
      Sure-bind (arguments-Sure (get field_a i) (get field_b i) w.reg_a) (λ _ k.
        Sure-bind (returns-Sure t.pc (get field_a i) (get field_c i) (word_behind w n30) w.reg_a)
          (λ _ l.
            accepts (
              (k, l.0, l.1),
              mark-Moves (leb (get field_a i) reg) w.inside h (counts-other w n34),
            )))

  pub check_setlist-Sure :
      (i : ℕ) (t : Trace)
      → At f op_setlist i t.pc
      → t.last < size_code f
      → Sure (Good op_setlist i t) (check_setlist f fs lastpc reg i t)
  unfolding check_setlist
  check_setlist-Sure i t w h =
      Sure-bind {P = λ _. get field_a i + get field_b i < f.maxstacksize}
        (Sure-if (get field_b i == 0) (λ e. accepts (omega (arith, w.reg_a, eqb→eq _ _ e)))
          (λ e. Sure-map (Sure-check _) (λ _ k. ltb→lt _ _ k)))
        (λ _ fits.
          Sure-if (get field_c i == 0)
            (λ e. Sure-guard (ltb (t.pc + 2) (size_code f)) (λ k. accepts (
              (fits, inr (ltb→lt _ _ k)),
              record { onward = omega arith; marked = h; plain = λ _. ground (arith, w.named, e) },
            )))
            (λ e. accepts (
              (fits, inl (eqb→ne _ _ e)),
              record { onward = omega arith; marked = h; plain = λ _. ground (arith, w.named, e) },
            )))

  pub check_closure-Sure :
      (i : ℕ) (t : Trace)
      → At f op_closure i t.pc
      → t.last < size_code f
      → Sure (Good op_closure i t) (check_closure f fs lastpc reg i t)
  unfolding check_closure
  check_closure-Sure i t w h = Sure-guard (ltb (get field_bx i) (count fs)) (λ k.
      let inside = ltb→lt _ _ k in
      Sure-bind (nups_at-Sure fs (get field_bx i) inside) (λ nup there.
        Sure-guard (ltb (t.pc + nup) (size_code f)) (λ l.
          let room = ltb→lt _ _ l in
          Sure-bind (check_captures-Sure f (t.pc + 1) nup (omega arith)) (λ _ captures.
            accepts ((inside, (nup, there, room, captures)), traced nup (reg == no_reg) refl)))))
    where
      traced :
          (nup : ℕ) (b : Bool)
          → (reg == no_reg) ≡ b
          → Moves i t (if b then t else at (t.pc + nup) t.last)
      traced nup true e = stays h (counts-other w (omega arith))
      traced nup false e = record {
        onward = omega arith;
        marked = h;
        plain = λ r. absurd (eqb→ne reg no_reg e r);
      }

  pub check_vararg-Sure :
      (i : ℕ) (t : Trace)
      → At f op_vararg i t.pc
      → t.last < size_code f
      → Sure (Good op_vararg i t) (check_vararg f fs lastpc reg i t)
  unfolding check_vararg
  check_vararg-Sure i t w h = Sure-guard (is_vararg_bit f && not (needs_arg f)) (λ k.
      let (flag, no_table) = both _ _ k in
      Sure-bind {P = λ _. (get field_b i ≢ 0) ⊎ IsOpen f (t.pc + 1)}
        (Sure-if (get field_b i == 0)
          (λ e.
            Sure-map (check_open_op-Sure f (t.pc + 1) (word_behind w (omega arith))) (λ _ o. inr o))
          (λ e. accepts (inl (eqb→ne _ _ e))))
        (λ _ open_call. Sure-guard (ltb (get field_a i + get field_b i) (f.maxstacksize + 2)) (λ l.
          accepts (
            (flag, not-false _ no_table, ltb→lt _ _ l, open_call),
            stays h (counts-other w (omega arith)),
          ))))
