-- ===== src/Lua/Checker/Operations.antt =====
-- lua515/ldebug.c: a round of `symbexec`, operation by operation.
use lua_engine.Base.{
  ℕ, ◌+◌, ◌≤◌, ◌<◌, ◌≡◌, ◌≢◌, refl, Bool, true, false, Option, none, some, length, get_elem?, arith,
  ltb, leb, ◌==◌, ◌&&◌, ltb→lt, eqb→ne, inl, inr, leb→le, leb-false,
}
use lua_engine.Lua.Chunk.{Info, Protos, Constant}
use lua_engine.Lua.Opcode.{field_op, field_a, field_b, field_c, field_bx, get}
use lua_engine.Lua.Opcode.Modes.{
  OpCode, number, get_op_mode, test_a_mode, test_t_mode, opcode, opcode-number, op_loadbool,
  op_loadnil, op_getupval, op_setupval, op_getglobal, op_setglobal, op_self, op_concat, op_tforloop,
  op_forloop, op_forprep, op_jmp, op_call, op_tailcall, op_return, op_setlist, op_closure,
  op_vararg,
}
use lua_engine.Lua.Checks.{
  accept, reject, ◌>>=◌, ◌>>◌, check, read_at, size_code, is_string, no_reg,
}
use lua_engine.Lua.Checks.Verdicts.{
  Sure, accepts, rejects, Sure-bind, Sure-map, Sure-check, Sure-read, Sure-guard, Sure-if,
}
use lua_engine.Lua.Checks.Reach.{counts}
use lua_engine.Lua.Checks.Operands.{
  TestFits, Closed, check_mode-Sure, check_test-Sure, takes_count-Sure,
}
use lua_engine.Lua.Checker.{Trace, mark, check_op, check_instruction, round}
use lua_engine.Lua.Checker.Conditions.{OpFits, At}
use lua_engine.Lua.Checker.Calls.{
  counts-other, stays, mark-Moves, jump-Moves, check_call-Sure, check_setlist-Sure,
  check_closure-Sure, check_vararg-Sure, Moves, Good,
}

module _ (f : Info) (fs : Protos) (lastpc reg : ℕ) where
  global-Sure :
      {o : OpCode} (i : ℕ) (t : Trace)
      → At f o i t.pc
      → number o ≢ 34
      → get field_bx i < length f.constants
      → t.last < size_code f
      → Sure
          (λ t'.
            ((k : Constant) × (get_elem? f.constants (get field_bx i) ≡ some k)
              × (is_string k ≡ true))
            × Moves f fs lastpc reg i t t')
          (read_at f.constants (get field_bx i) >>= λ k. check (is_string k) >> accept t)
  global-Sure i t w n34 inside h = Sure-bind (Sure-read f.constants (get field_bx i) inside) (λ k e.
      Sure-guard (is_string k)
        (λ s. accepts ((k, e, s), stays f fs lastpc reg h (counts-other f fs lastpc reg w n34))))

  loadbool-Sure :
      (i : ℕ) (t : Trace)
      → At f op_loadbool i t.pc
      → t.last < size_code f
      → Sure (Good f fs lastpc reg op_loadbool i t) (check_op f fs lastpc reg op_loadbool i t)
  unfolding check_op
  loadbool-Sure i t w h =
      Sure-bind {P = λ _. OpFits f fs op_loadbool i t.pc}
        (Sure-if (get field_c i == 1)
          (λ e. Sure-guard (ltb (t.pc + 2) (size_code f)) (λ k.
            let room = ltb→lt _ _ k in
            Sure-map (takes_count-Sure f (t.pc + 1) (omega arith)) (λ _ s. inr (room, s))))
          (λ e. accepts (inl (eqb→ne _ _ e))))
        (λ _ fits.
          accepts (fits, stays f fs lastpc reg h (counts-other f fs lastpc reg w (omega arith))))

  check_op-Sure :
      (o : OpCode) (i : ℕ) (t : Trace)
      → At f o i t.pc
      → t.last < size_code f
      → Sure (Good f fs lastpc reg o i t) (check_op f fs lastpc reg o i t)
  unfolding check_op
  check_op-Sure op_loadbool i t w h = loadbool-Sure i t w h
  check_op-Sure op_loadnil i t w h =
      accepts
        (tt, mark-Moves f fs lastpc reg _ w.inside h (counts-other f fs lastpc reg w (omega arith)))
  check_op-Sure op_getupval i t w h = Sure-guard (ltb (get field_b i) f.nups) (λ k.
      accepts
        (ltb→lt _ _ k, stays f fs lastpc reg h (counts-other f fs lastpc reg w (omega arith))))
  check_op-Sure op_setupval i t w h = Sure-guard (ltb (get field_b i) f.nups) (λ k.
      accepts
        (ltb→lt _ _ k, stays f fs lastpc reg h (counts-other f fs lastpc reg w (omega arith))))
  check_op-Sure op_getglobal i t w h = global-Sure i t w (omega arith) w.operands h
  check_op-Sure op_setglobal i t w h = global-Sure i t w (omega arith) w.operands h
  check_op-Sure op_self i t w h = Sure-guard (ltb (get field_a i + 1) f.maxstacksize) (λ k.
      accepts (
        ltb→lt _ _ k,
        mark-Moves f fs lastpc reg _ w.inside h (counts-other f fs lastpc reg w (omega arith)),
      ))
  check_op-Sure op_concat i t w h = Sure-guard (ltb (get field_b i) (get field_c i)) (λ k.
      accepts
        (ltb→lt _ _ k, stays f fs lastpc reg h (counts-other f fs lastpc reg w (omega arith))))
  check_op-Sure op_tforloop i t w h = Sure-guard (leb 1 (get field_c i)) (λ k.
      Sure-guard (ltb (get field_a i + 2 + get field_c i) f.maxstacksize) (λ l. accepts (
        (leb→le _ _ k, ltb→lt _ _ l),
        mark-Moves f fs lastpc reg _ w.inside h (counts-other f fs lastpc reg w (omega arith)),
      )))
  check_op-Sure op_forloop i t w h = Sure-guard (ltb (get field_a i + 3) f.maxstacksize) (λ k.
      accepts (
        ltb→lt _ _ k,
        jump-Moves f fs lastpc reg _ h (counts-other f fs lastpc reg w (omega arith)),
      ))
  check_op-Sure op_forprep i t w h = Sure-guard (ltb (get field_a i + 3) f.maxstacksize) (λ k.
      accepts (
        ltb→lt _ _ k,
        jump-Moves f fs lastpc reg _ h (counts-other f fs lastpc reg w (omega arith)),
      ))
  check_op-Sure op_jmp i t w h =
      accepts (tt, jump-Moves f fs lastpc reg _ h (counts-other f fs lastpc reg w (omega arith)))
  check_op-Sure op_call i t w h =
      check_call-Sure f fs lastpc reg i t w (omega arith) (omega arith) h
  check_op-Sure op_tailcall i t w h =
      check_call-Sure f fs lastpc reg i t w (omega arith) (omega arith) h
  check_op-Sure op_return i t w h =
      Sure-bind {P = λ _. get field_a i + get field_b i ≤ f.maxstacksize + 1}
        (Sure-if (leb (get field_b i) 1) (λ e. accepts (omega (arith, leb→le _ _ e, w.reg_a)))
          (λ e. Sure-map (Sure-check _) (λ _ k. omega (arith, ltb→lt _ _ k, leb-false _ _ e))))
        (λ _ k. accepts (k, stays f fs lastpc reg h (counts-other f fs lastpc reg w (omega arith))))
  check_op-Sure op_setlist i t w h = check_setlist-Sure f fs lastpc reg i t w h
  check_op-Sure op_closure i t w h = check_closure-Sure f fs lastpc reg i t w h
  check_op-Sure op_vararg i t w h = check_vararg-Sure f fs lastpc reg i t w h
  check_op-Sure _ i t w h =
      accepts (tt, stays f fs lastpc reg h (counts-other f fs lastpc reg w (omega arith)))

  -- What an accepted instruction `i` at `pc` satisfies.
  pub record Fits (o : OpCode) (i pc : ℕ) : Type 0 where
    pub operation : opcode (get field_op i) ≡ some o
    pub basic : At f o i pc
    pub test : TestFits f (test_t_mode o) pc
    pub own : OpFits f fs o i pc

  -- The state behind a round, and the instruction that it accepted.
  pub record After (t t' : Trace) : Type 0 where
    pub op : OpCode
    pub word : ℕ
    pub fits : Fits op word t.pc
    pub later : t.pc < t'.pc
    pub marked : t'.last < size_code f
    pub plain : reg ≡ no_reg → t'.pc ≡ t.pc + 1 + counts word

  mark-pc : (b : Bool) (t : Trace) → (mark f fs lastpc reg b t).pc ≡ t.pc
  mark-pc b t = refl

  mark-last :
      (b : Bool) (t : Trace)
      → t.pc < size_code f
      → t.last < size_code f
      → (mark f fs lastpc reg b t).last < size_code f
  mark-last true t p h = p
  mark-last false t p h = h

  check_instruction-Sure :
      (o : OpCode) (i : ℕ) (t : Trace)
      → Closed f
      → t.pc < size_code f
      → t.last < size_code f
      → get_elem? f.code t.pc ≡ some i
      → opcode (get field_op i) ≡ some o
      → Sure (After t) (check_instruction f fs lastpc reg i o t)
  unfolding check_instruction
  check_instruction-Sure o i t closed p h e n =
      Sure-guard (ltb (get field_a i) f.maxstacksize) (λ a.
        Sure-bind (check_mode-Sure f o t.pc i (get_op_mode o)) (λ _ operands.
          Sure-bind (check_test-Sure f (test_t_mode o) t.pc) (λ _ test.
            let w : At f o i t.pc = record {
              inside = p;
              word = e;
              named = opcode-number _ o n;
              reg_a = ltb→lt _ _ a;
              operands = operands;
              closed = closed;
            } in
            let t0 = mark f fs lastpc reg (test_a_mode o && get field_a i == reg) t in
            Sure-bind (check_op-Sure o i t0 w (mark-last _ t p h)) (λ t' g. accepts (record {
              op = o;
              word = i;
              fits = record { operation = n; basic = w; test = test; own = g.0 };
              later = omega (arith, g.1.onward);
              marked = g.1.marked;
              plain = λ r. omega (arith, g.1.plain r);
            })))))

  opcode-Sure :
      (i : ℕ) (t : Trace) (o : Option OpCode)
      → Closed f
      → t.pc < size_code f
      → t.last < size_code f
      → get_elem? f.code t.pc ≡ some i
      → opcode (get field_op i) ≡ o
      → Sure (After t) (elim o [ none ↦ reject | some o ↦ check_instruction f fs lastpc reg i o t ])
  opcode-Sure i t none closed p h e n = rejects
  opcode-Sure i t (some o) closed p h e n = check_instruction-Sure o i t closed p h e n

  pub round-Sure :
      (t : Trace)
      → Closed f
      → t.pc < size_code f
      → t.last < size_code f
      → Sure (After t) (round f fs lastpc reg t)
  unfolding round
  round-Sure t closed p h =
      Sure-bind (Sure-read f.code t.pc p)
        (λ i e. opcode-Sure i t (opcode (get field_op i)) closed p h e refl)
