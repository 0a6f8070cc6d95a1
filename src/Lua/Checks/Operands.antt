-- ===== src/Lua/Checks/Operands.antt =====
-- lua515/ldebug.c: what the checks of the operands mean, and that they read inside the arrays.
use lua_engine.Base.{
  ℕ, zero, suc, ◌+◌, ◌-◌, ◌%◌, ◌≤◌, ◌<◌, ◌≡◌, ◌≢◌, ◌⊎◌, inl, inr, refl, Bool, true, false, Option,
  none, some, length, get_elem?, arith, if◌then◌else◌, ltb, leb, ◌==◌, not, ◌&&◌, ◌||◌, ltb→lt,
  eqb→eq, eqb→ne, Bool-cases, leb→le,
}
use lua_engine.Lua.Chunk.{Info, Protos, more, proto}
use lua_engine.Lua.Chunk.Dump.{count}
use lua_engine.Lua.Opcode.{field_op, field_b, field_c, field_bx, get, getarg_sbx, isk, indexk}
use lua_engine.Lua.Opcode.Modes.{
  OpCode, OpMode, iabc, iabx, iasbx, ArgMask, arg_n, arg_u, arg_r, arg_k, get_b_mode, get_c_mode,
  op_return, op_call, op_tailcall, op_setlist, op_getupval, op_move,
}
use lua_engine.Lua.Checks.{
  accept, ◌>>=◌, check, read_at, precheck, check_arg_mode, check_dest, check_mode, check_test,
  check_captures, nups_at, size_code, jump_dest, is_op, max_stack, needs_arg, has_arg,
  check_open_op, takes_count,
}
use lua_engine.Lua.Checks.Verdicts.{
  Sure, accepts, rejects, Sure-bind, Sure-map, Sure-check, Sure-read, Sure-guard,
}
use lua_engine.Lua.Checks.Reach.{Reach, setlist_run-Parity, Parity-even}

-- An operand of mode `m`: a register of the frame, or a constant of the function.
abbrev pub ArgFits : Info → ℕ → ArgMask → Type 0
ArgFits f r arg_n = r ≡ 0
ArgFits f r arg_u = Unit
ArgFits f r arg_r = r < f.maxstacksize
ArgFits f r arg_k =
    ((isk r ≡ 0) × (r < f.maxstacksize)) ⊎ ((isk r ≢ 0) × (indexk r < length f.constants))

-- The operand `Bx`: an index of a constant, where the mode says so.
abbrev pub BxFits : Info → ℕ → ArgMask → Type 0
BxFits f b arg_k = b < length f.constants
BxFits f b _ = Unit

-- A jump, by its destination: inside the code, to an instruction.
pub data Lands (f : Info) : Option ℕ → Type 0 where
  lands : {d : ℕ} → d < size_code f → Reach f.code 0 d → Lands f (some d)

abbrev pub JumpFits : Info → Option ℕ → ArgMask → Type 0
JumpFits f d arg_r = Lands f d
JumpFits f d _ = Unit

-- The operands `B` and `C`, `Bx` or `sBx` of the instruction `i` at `pc`, by the mode of its operation.
abbrev pub OperandsFit : Info → OpCode → ℕ → ℕ → OpMode → Type 0
OperandsFit f o pc i iabc =
    ArgFits f (get field_b i) (get_b_mode o) × ArgFits f (get field_c i) (get_c_mode o)
OperandsFit f o pc i iabx = BxFits f (get field_bx i) (get_b_mode o)
OperandsFit f o pc i iasbx = JumpFits f (jump_dest pc (getarg_sbx i)) (get_b_mode o)

pub both : (a b : Bool) → a && b ≡ true → (a ≡ true) × (b ≡ true)
both true true e = (refl, refl)
both true false e = cc
both false b e = cc

pub not-false : (b : Bool) → not b ≡ true → b ≡ false
not-false true e = cc
not-false false e = refl

one_fails : (a b : Bool) → not a || not b ≡ true → a && b ≡ false
one_fails true true e = cc
one_fails true false e = refl
one_fails false b e = refl

needs_or : (a b : Bool) → not a || b ≡ true → (a ≡ false) ⊎ (b ≡ true)
needs_or false b e = inl refl
needs_or true true e = inr refl
needs_or true false e = cc

either_length : (n m : ℕ) → (n == m || n == 0) ≡ true → (n ≡ m) ⊎ (n ≡ 0)
either_length n m e = elim (Bool-cases (n == m)) [
  | inl q ↦ inl (eqb→eq n m q)
  | inr q ↦ inr (eqb→eq n 0 (rw q at e))
]

module _ (f : Info) where
  constant_or_register :
      (r : ℕ)
      → (if isk r == 0 then ltb r f.maxstacksize else ltb (indexk r) (length f.constants)) ≡ true
      → ArgFits f r arg_k
  constant_or_register r h = elim (Bool-cases (isk r == 0)) [
    | inl e ↦ inl (eqb→eq (isk r) 0 e, ltb→lt r f.maxstacksize (rw e at h))
    | inr e ↦ inr (eqb→ne (isk r) 0 e, ltb→lt (indexk r) (length f.constants) (rw e at h))
  ]

  check_arg_mode-Sure : (r : ℕ) (m : ArgMask) → Sure (λ _. ArgFits f r m) (check_arg_mode f r m)
  unfolding check_arg_mode
  check_arg_mode-Sure r arg_n = Sure-map (Sure-check _) (λ _ h. eqb→eq r 0 h)
  check_arg_mode-Sure r arg_u = accepts tt
  check_arg_mode-Sure r arg_r = Sure-map (Sure-check _) (λ _ h. ltb→lt _ _ h)
  check_arg_mode-Sure r arg_k = Sure-map (Sure-check _) (λ _ h. constant_or_register r h)

  check_dest-Sure : (d : Option ℕ) → Sure (λ _. Lands f d) (check_dest f d)
  unfolding check_dest
  check_dest-Sure none = rejects
  check_dest-Sure (some d) = Sure-bind (Sure-check _) (λ _ h.
      let inside = ltb→lt _ _ h in
      Sure-bind (setlist_run-Parity f.code d (omega arith)) (λ j p.
        Sure-map (Sure-check _) (λ _ e. lands inside (Parity-even f.code j p (eqb→eq _ _ e)))))

  jump-Sure :
      (d : Option ℕ) (m : ArgMask)
      → Sure (λ _. JumpFits f d m) (elim m [ arg_r ↦ check_dest f d | _ ↦ accept tt ])
  jump-Sure d arg_r = check_dest-Sure d
  jump-Sure d _ = accepts tt

  bx-Sure :
      (b : ℕ) (m : ArgMask)
      → Sure
          (λ _. BxFits f b m)
          (elim m [ arg_k ↦ check (ltb b (length f.constants)) | _ ↦ accept tt ])
  bx-Sure b arg_k = Sure-map (Sure-check _) (λ _ h. ltb→lt _ _ h)
  bx-Sure b _ = accepts tt

  pub check_mode-Sure :
      (o : OpCode) (pc i : ℕ) (m : OpMode)
      → Sure (λ _. OperandsFit f o pc i m) (check_mode f o pc i m)
  unfolding check_mode
  check_mode-Sure o pc i iabc =
      Sure-bind (check_arg_mode-Sure (get field_b i) (get_b_mode o))
        (λ _ h. Sure-map (check_arg_mode-Sure (get field_c i) (get_c_mode o)) (λ _ k. (h, k)))
  check_mode-Sure o pc i iabx = bx-Sure (get field_bx i) (get_b_mode o)
  check_mode-Sure o pc i iasbx = jump-Sure (jump_dest pc (getarg_sbx i)) (get_b_mode o)

  -- What a test needs of the words behind it: a jump, and one more word.
  abbrev pub TestFits : Bool → ℕ → Type 0
  TestFits false pc = Unit
  TestFits true pc =
      (pc + 2 < size_code f)
      × ((i : ℕ) × (get_elem? f.code (pc + 1) ≡ some i) × (get field_op i ≡ 22))

  pub check_test-Sure : (b : Bool) (pc : ℕ) → Sure (λ _. TestFits b pc) (check_test f b pc)
  unfolding check_test
  check_test-Sure false pc = accepts tt
  check_test-Sure true pc = Sure-bind (Sure-check _) (λ _ h.
      let inside = ltb→lt _ _ h in
      Sure-bind (Sure-read f.code (pc + 1) (omega arith))
        (λ i e. Sure-map (Sure-check _) (λ _ k. (inside, (i, e, eqb→eq _ _ k)))))

  -- What `precheck` asks of the frame and the debug information.
  pub record FrameFits : Type 0 where
    pub small : f.maxstacksize ≤ 250
    pub parameters : f.numparams + f.is_vararg % 2 ≤ f.maxstacksize
    pub arg_table : (needs_arg f ≡ false) ⊎ (has_arg f ≡ true)
    pub upvalue_names : length f.upvalues ≤ f.nups
    pub lines : (length f.lineinfo ≡ size_code f) ⊎ (length f.lineinfo ≡ 0)

  -- What `precheck` gives: the last word is a return, and the frame fits.
  abbrev pub Closed : Type 0
  Closed =
      (0 < size_code f)
      × ((i : ℕ) × (get_elem? f.code (size_code f - 1) ≡ some i) × (get field_op i ≡ 30))
      × FrameFits

  last_word :
      0 < size_code f
      → FrameFits
      → Sure (λ _. Closed) (read_at f.code (size_code f - 1) >>= λ i. check (is_op op_return i))
  last_word h frame =
      Sure-bind (Sure-read f.code (size_code f - 1) (omega arith))
        (λ i e. Sure-map (Sure-check _) (λ _ k. (h, (i, e, eqb→eq _ _ k), frame)))

  pub precheck-Sure : Sure (λ _. Closed) (precheck f)
  unfolding precheck
  precheck-Sure = Sure-guard (leb f.maxstacksize max_stack) (λ h1.
      Sure-guard (leb (f.numparams + f.is_vararg % 2) f.maxstacksize) (λ h2.
        Sure-guard (not (needs_arg f) || has_arg f) (λ h3.
          Sure-guard (leb (length f.upvalues) f.nups) (λ h4.
            Sure-guard (length f.lineinfo == size_code f || length f.lineinfo == 0) (λ h5.
              Sure-guard (ltb 0 (size_code f)) (λ h6.
                last_word (ltb→lt 0 (size_code f) h6) (record {
                  small = leb→le _ _ h1;
                  parameters = leb→le _ _ h2;
                  arg_table = needs_or (needs_arg f) (has_arg f) h3;
                  upvalue_names = leb→le _ _ h4;
                  lines = either_length (length f.lineinfo) (size_code f) h5;
                })))))))

  -- The word at `pc` is a call, a return or a `SETLIST` of as many values as there are.
  abbrev pub IsOpen : ℕ → Type 0
  IsOpen pc =
      (i : ℕ) × (get_elem? f.code pc ≡ some i)
      × (is_op op_call i || is_op op_tailcall i || is_op op_return i || is_op op_setlist i ≡ true)
      × (get field_b i ≡ 0)

  -- The word at `pc` is no `SETLIST` with its count in the next word.
  abbrev pub IsSkipped : ℕ → Type 0
  IsSkipped pc = (d : ℕ) × (get_elem? f.code pc ≡ some d) × (takes_count d ≡ false)

  -- Each of the `n` words from `pc` on is a `GETUPVAL` or a `MOVE`.
  abbrev pub CapturesFit : ℕ → ℕ → Type 0
  CapturesFit pc zero = Unit
  CapturesFit pc (suc n) =
      ((i : ℕ) × (get_elem? f.code pc ≡ some i) × (is_op op_getupval i || is_op op_move i ≡ true))
      × CapturesFit (suc pc) n

  pub check_open_op-Sure :
      (pc : ℕ) → pc < size_code f → Sure (λ _. IsOpen pc) (read_at f.code pc >>= check_open_op)
  unfolding check_open_op
  check_open_op-Sure pc h = Sure-bind (Sure-read f.code pc h) (λ i e.
      Sure-map (Sure-check _)
        (λ _ k. let (named, no_count) = both _ _ k in (i, e, named, eqb→eq _ _ no_count)))

  pub takes_count-Sure :
      (pc : ℕ)
      → pc < size_code f
      → Sure
          (λ _. IsSkipped pc)
          (read_at f.code pc >>= λ d. check (not (is_op op_setlist d) || not (get field_c d == 0)))
  takes_count-Sure pc h =
      Sure-bind (Sure-read f.code pc h)
        (λ d e. Sure-map (Sure-check _) (λ _ k. (d, e, one_fails _ _ k)))

  pub check_captures-Sure :
      (pc n : ℕ) → pc + n ≤ size_code f → Sure (λ _. CapturesFit pc n) (check_captures f.code pc n)
  unfolding check_captures
  check_captures-Sure pc zero h = accepts tt
  check_captures-Sure pc (suc n) h = Sure-bind (Sure-read f.code pc (omega arith)) (λ i e.
      Sure-bind (Sure-check _) (λ _ k.
        Sure-map (check_captures-Sure (suc pc) n (omega arith)) (λ _ rest. ((i, e, k), rest))))

pub nups_at-Sure :
    (fs : Protos) (b : ℕ) → b < count fs → Sure (λ nup. nups_at fs b ≡ accept nup) (nups_at fs b)
nups_at-Sure Protos.none b h = absurd (omega arith)
nups_at-Sure (more (proto g gs) fs) zero h = accepts refl
nups_at-Sure (more (proto g gs) fs) (suc b) h = nups_at-Sure fs b (omega arith)
