-- ===== src/Lua/Checker/Conditions.antt =====
-- lua515/ldebug.c: what `symbexec` asks of an operation, beyond the modes of its operands.
use lua_engine.Base.{ℕ, ◌+◌, ◌≤◌, ◌<◌, ◌≡◌, ◌≢◌, ◌⊎◌, true, false, some, get_elem?}
use lua_engine.Lua.Chunk.{Info, Protos, Constant}
use lua_engine.Lua.Chunk.Dump.{count}
use lua_engine.Lua.Opcode.{field_op, field_a, field_b, field_c, field_bx, get}
use lua_engine.Lua.Opcode.Modes.{
  OpCode, number, get_op_mode, op_getupval, op_setupval, op_getglobal, op_setglobal, op_self,
  op_concat, op_loadbool, op_tforloop, op_forloop, op_forprep, op_call, op_tailcall, op_return,
  op_setlist, op_closure, op_vararg,
}
use lua_engine.Lua.Checks.{accept, size_code, is_string, is_vararg_bit, needs_arg, nups_at}
use lua_engine.Lua.Checks.Operands.{OperandsFit, Closed, IsOpen, IsSkipped, CapturesFit}

-- What a call at `pc` asks of its operands: the arguments and the results are in the frame, and an open
-- call has an operation behind it that takes all results.
abbrev pub CallFits : Info → ℕ → ℕ → Type 0
CallFits f i pc =
    (get field_a i + get field_b i ≤ f.maxstacksize)
    × (get field_a i + get field_c i ≤ f.maxstacksize + 1)
    × ((get field_c i ≢ 0) ⊎ IsOpen f (pc + 1))

-- What a closure of the function `Bx` at `pc` asks: the function is there, and a word for each of its
-- upvalues.
abbrev pub ClosureFits : Info → Protos → ℕ → ℕ → Type 0
ClosureFits f fs i pc =
    (get field_bx i < count fs)
    × ((nup : ℕ) × (nups_at fs (get field_bx i) ≡ accept nup)
        × (pc + nup < size_code f)
        × CapturesFit f (pc + 1) nup)

-- What the operation itself asks of the operands of the instruction `i` at `pc`, and of the words
-- behind it.
abbrev pub OpFits : Info → Protos → OpCode → ℕ → ℕ → Type 0
OpFits f fs op_loadbool i pc = (get field_c i ≢ 1) ⊎ ((pc + 2 < size_code f) × IsSkipped f (pc + 1))
OpFits f fs op_getupval i pc = get field_b i < f.nups
OpFits f fs op_setupval i pc = get field_b i < f.nups
OpFits f fs op_getglobal i pc =
    (k : Constant) × (get_elem? f.constants (get field_bx i) ≡ some k) × (is_string k ≡ true)
OpFits f fs op_setglobal i pc =
    (k : Constant) × (get_elem? f.constants (get field_bx i) ≡ some k) × (is_string k ≡ true)
OpFits f fs op_self i pc = get field_a i + 1 < f.maxstacksize
OpFits f fs op_concat i pc = get field_b i < get field_c i
OpFits f fs op_tforloop i pc =
    (1 ≤ get field_c i) × (get field_a i + 2 + get field_c i < f.maxstacksize)
OpFits f fs op_forloop i pc = get field_a i + 3 < f.maxstacksize
OpFits f fs op_forprep i pc = get field_a i + 3 < f.maxstacksize
OpFits f fs op_call i pc = CallFits f i pc
OpFits f fs op_tailcall i pc = CallFits f i pc
OpFits f fs op_return i pc = get field_a i + get field_b i ≤ f.maxstacksize + 1
OpFits f fs op_setlist i pc =
    (get field_a i + get field_b i < f.maxstacksize)
    × ((get field_c i ≢ 0) ⊎ (pc + 2 < size_code f))
OpFits f fs op_closure i pc = ClosureFits f fs i pc
OpFits f fs op_vararg i pc =
    (is_vararg_bit f ≡ true)
    × (needs_arg f ≡ false)
    × (get field_a i + get field_b i < f.maxstacksize + 2)
    × ((get field_b i ≢ 0) ⊎ IsOpen f (pc + 1))
OpFits f fs _ i pc = Unit

-- What is known of the instruction `i` at `pc` when its operation `o` is looked at.
pub record At (f : Info) (o : OpCode) (i pc : ℕ) : Type 0 where
  pub inside : pc < size_code f
  pub word : get_elem? f.code pc ≡ some i
  pub named : number o ≡ get field_op i
  pub reg_a : get field_a i < f.maxstacksize
  pub operands : OperandsFit f o pc i (get_op_mode o)
  pub closed : Closed f
