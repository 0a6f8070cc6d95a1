-- ===== src/Lua/Checker.antt =====
-- lua515/ldebug.c: symbolic execution and the checker of precompiled code.
pub mod Conditions
pub mod Calls
pub mod Operations
pub mod Accepted
pub mod Loaded
use lua_engine.Base.{
  ℕ, zero, suc, ◌+◌, ◌-◌, ◌*◌, ◌/◌, ◌%◌, Bool, true, false, not, ◌&&◌, ◌||◌, Option, none, some,
  List, [], ◌∷◌, length, get_elem?, ltb, leb, ◌==◌, if◌then◌else◌,
}
use lua_engine.Base.Int.{ℤ, pos, negsuc, pos_part}
use lua_engine.Lua.Chunk.{Constant, string, Info, Proto, proto, Protos, more}
use lua_engine.Lua.Chunk.Dump.{count}
use lua_engine.Lua.Opcode.{
  field_op, field_a, field_b, field_c, field_bx, get, getarg_sbx, isk, indexk,
}
use lua_engine.Lua.Opcode.Modes.{
  OpCode, number, opcode, OpMode, iabc, iabx, iasbx, ArgMask, arg_n, arg_u, arg_r, arg_k,
  get_op_mode, get_b_mode, get_c_mode, test_a_mode, test_t_mode, op_loadbool, op_loadnil,
  op_getupval, op_setupval, op_getglobal, op_setglobal, op_self, op_concat, op_tforloop, op_forloop,
  op_forprep, op_jmp, op_call, op_tailcall, op_return, op_setlist, op_closure, op_vararg, op_move,
}
use lua_engine.Lua.Checks.{
  Verdict, accept, reject, fault, ◌>>=◌, ◌>>◌, check, read_at, no_reg, is_vararg_bit, needs_arg,
  size_code, is_op, precheck, check_open_op, takes_count, jump_dest, check_mode, check_test,
  nups_at, check_captures, is_string,
}

-- The state of the loop of `symbexec`: `pc`, and `last`, the position of the last instruction that
-- changed the traced register.
pub record Trace : Type 0 where
  pub pc : ℕ
  pub last : ℕ

abbrev pub at : ℕ → ℕ → Trace
at pc last = record { pc = pc; last = last }

-- A part of the function, and the arguments of `symbexec`: the position to stop at and the register
-- to trace.
module _ (f : Info) (fs : Protos) (lastpc reg : ℕ) where
  -- `checkreg`
  abbrev pub check_reg : ℕ → Verdict (Unit {0})
  check_reg r = check (ltb r f.maxstacksize)

  -- `if (b) last = pc;`
  abbrev pub mark : Bool → Trace → Trace
  mark b t = at t.pc (if b then t.pc else t.last)

  -- The common end of `OP_FORLOOP`, `OP_FORPREP` and `OP_JMP`.
  unfoldable pub jump : Option ℕ → Trace → Trace
  jump none t = t
  jump (some dest) t =
      if not (reg == no_reg) && ltb t.pc dest && leb dest lastpc then at (dest - 1) t.last else t

  -- `OP_CALL` and `OP_TAILCALL`. The number of returns is one less than `C`, and an open call where
  -- that is -1.
  unfoldable pub check_call : ℕ → Trace → Verdict Trace
  check_call i t = do
    let a = get field_a i
    let b = get field_b i
    let c = get field_c i
    if b == 0 then accept tt else check_reg (a + b - 1)
    let open_op = do j ← read_at f.code (t.pc + 1); check_open_op j
    if c == 0 then open_op else if c == 1 then accept tt else check_reg (a + c - 2)
    accept (mark (leb a reg) t)

  -- `OP_SETLIST`
  unfoldable pub check_setlist : ℕ → Trace → Verdict Trace
  check_setlist i t = do
    let b = get field_b i
    if b == 0 then accept tt else check_reg (get field_a i + b)
    let skips = do check (ltb (t.pc + 2) (size_code f)); accept (at (t.pc + 1) t.last)
    if get field_c i == 0 then skips else accept t

  -- `OP_CLOSURE`
  unfoldable pub check_closure : ℕ → Trace → Verdict Trace
  check_closure i t = do
    check (ltb (get field_bx i) (count fs))
    nup ← nups_at fs (get field_bx i)
    check (ltb (t.pc + nup) (size_code f))
    check_captures f.code (t.pc + 1) nup
    accept (if reg == no_reg then t else at (t.pc + nup) t.last)

  -- `OP_VARARG`
  unfoldable pub check_vararg : ℕ → Trace → Verdict Trace
  check_vararg i t = do
    let b = get field_b i
    check (is_vararg_bit f && not (needs_arg f))
    let open_op = do j ← read_at f.code (t.pc + 1); check_open_op j
    if b == 0 then open_op else accept tt
    check (ltb (get field_a i + b) (f.maxstacksize + 2))
    accept t

  -- The second `switch` of `symbexec`, on the operation of the instruction `i`.
  unfoldable pub check_op : OpCode → ℕ → Trace → Verdict Trace
  unfolding jump check_call check_setlist check_closure check_vararg
  check_op op_loadbool i t = do
    let stays = do
      check (ltb (t.pc + 2) (size_code f))
      d ← read_at f.code (t.pc + 1)
      check (not (is_op op_setlist d) || not (get field_c d == 0))
    if get field_c i == 1 then stays else accept tt
    accept t
  check_op op_loadnil i t = accept (mark (leb (get field_a i) reg && leb reg (get field_b i)) t)
  check_op op_getupval i t = do check (ltb (get field_b i) f.nups); accept t
  check_op op_setupval i t = do check (ltb (get field_b i) f.nups); accept t
  check_op op_getglobal i t = do
    k ← read_at f.constants (get field_bx i)
    check (is_string k)
    accept t
  check_op op_setglobal i t = do
    k ← read_at f.constants (get field_bx i)
    check (is_string k)
    accept t
  check_op op_self i t = do
    check_reg (get field_a i + 1)
    accept (mark (reg == get field_a i + 1) t)
  check_op op_concat i t = do check (ltb (get field_b i) (get field_c i)); accept t
  check_op op_tforloop i t = do
    check (leb 1 (get field_c i))
    check_reg (get field_a i + 2 + get field_c i)
    accept (mark (leb (get field_a i + 2) reg) t)
  check_op op_forloop i t = do
    check_reg (get field_a i + 3)
    accept (jump (jump_dest t.pc (getarg_sbx i)) t)
  check_op op_forprep i t = do
    check_reg (get field_a i + 3)
    accept (jump (jump_dest t.pc (getarg_sbx i)) t)
  check_op op_jmp i t = accept (jump (jump_dest t.pc (getarg_sbx i)) t)
  check_op op_call i t = check_call i t
  check_op op_tailcall i t = check_call i t
  check_op op_return i t = do
    let b = get field_b i
    if leb b 1 then accept tt else check_reg (get field_a i + b - 2)
    accept t
  check_op op_setlist i t = check_setlist i t
  check_op op_closure i t = check_closure i t
  check_op op_vararg i t = check_vararg i t
  check_op _ i t = accept t

  -- What a round does with the instruction `i`, after `check(op < NUM_OPCODES)`.
  unfoldable pub check_instruction : ℕ → OpCode → Trace → Verdict Trace
  check_instruction i o t = do
    check_reg (get field_a i)
    check_mode f o t.pc i (get_op_mode o)
    check_test f (test_t_mode o) t.pc
    t' ← check_op o i (mark (test_a_mode o && get field_a i == reg) t)
    accept (at (t'.pc + 1) t'.last)

  -- One round of the loop.
  unfoldable pub round : Trace → Verdict Trace
  round t = do
    i ← read_at f.code t.pc
    elim (opcode (get field_op i)) [ none ↦ reject | some o ↦ check_instruction i o t ]

  -- The loop; `none` means that the fuel ran out.
  unfoldable pub rounds : ℕ → Trace → Option (Verdict ℕ)
  rounds zero t = none
  rounds (suc n) t = elim (ltb t.pc lastpc) [
    | false ↦ some (accept t.last)
    | true ↦ elim (round t) [ accept t' ↦ rounds n t' | reject ↦ some reject | fault ↦ some fault ]
  ]

  -- `symbexec`. A round moves `pc` on, so one round more than `lastpc` is enough.
  unfoldable pub symbexec : Option (Verdict ℕ)
  symbexec = elim (precheck f) [
    | reject ↦ some reject
    | fault ↦ some fault
    | accept _ ↦ elim (rounds (suc lastpc) (at 0 (size_code f - 1))) [
      | none ↦ none
      | some v ↦ some (v >>= read_at f.code)
    ]
  ]

-- `luaG_checkcode`: whether `symbexec` returns an instruction that is not 0.
unfoldable pub check_code : Proto → Bool
check_code (proto f fs) = elim (symbexec f fs (size_code f) no_reg) [
  | some (accept i) ↦ not (i == 0)
  | _ ↦ false
]
