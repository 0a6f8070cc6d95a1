-- ===== src/Lua/Checks.antt =====
-- lua515/ldebug.c: the single checks of precompiled code. An array of the function is a list, and a
-- read outside of it is the verdict `fault`.
pub mod Verdicts
pub mod Reach
pub mod Operands
use lua_engine.Base.{
  ℕ, zero, suc, ◌+◌, ◌-◌, ◌*◌, ◌/◌, ◌%◌, Bool, true, false, not, ◌&&◌, ◌||◌, Option, none, some,
  List, [], ◌∷◌, length, get_elem?, ltb, leb, ◌==◌, if◌then◌else◌,
}
use lua_engine.Base.Int.{ℤ, pos, negsuc, pos_part}
use lua_engine.Lua.Chunk.{Constant, string, Info, Proto, proto, Protos, more}
use lua_engine.Lua.Chunk.Dump.{count}
use lua_engine.Lua.Opcode.{
  field_op, field_a, field_b, field_c, field_bx, get, getarg_sbx, isk, indexk,
}
use lua_engine.Lua.Opcode.Modes.{
  OpCode, number, opcode, OpMode, iabc, iabx, iasbx, ArgMask, arg_n, arg_u, arg_r, arg_k,
  get_op_mode, get_b_mode, get_c_mode, test_a_mode, test_t_mode, op_loadbool, op_loadnil,
  op_getupval, op_setupval, op_getglobal, op_setglobal, op_self, op_concat, op_tforloop, op_forloop,
  op_forprep, op_jmp, op_call, op_tailcall, op_return, op_setlist, op_closure, op_vararg, op_move,
}

-- `reject` is `return 0`.
pub data Verdict (A : Type 0) : Type 0 where
  accept : A → Verdict A
  reject : Verdict A
  fault : Verdict A

infixl 5 ◌>>=◌ ◌>>◌
abbrev pub ◌>>=◌ : {A B : Type 0} → Verdict A → (A → Verdict B) → Verdict B
accept a >>= f = f a
reject >>= f = reject
fault >>= f = fault

abbrev pub ◌>>◌ : {B : Type 0} → Verdict (Unit {0}) → Verdict B → Verdict B
m >> k = m >>= λ _. k

-- `check`
abbrev pub check : Bool → Verdict (Unit {0})
check true = accept tt
check false = reject

-- A read of an array.
abbrev pub read_at : {A : Type 0} → List A → ℕ → Verdict A
read_at xs i = elim (get_elem? xs i) [ none ↦ fault | some x ↦ accept x ]

-- `MAXSTACK`, and `NO_REG`, the register that no code uses.
abbrev pub max_stack : ℕ
max_stack = 250

abbrev pub no_reg : ℕ
no_reg = 255

-- `VARARG_HASARG`, `VARARG_ISVARARG` and `VARARG_NEEDSARG`
abbrev pub has_arg : Info → Bool
has_arg f = f.is_vararg % 2 == 1

abbrev pub is_vararg_bit : Info → Bool
is_vararg_bit f = f.is_vararg / 2 % 2 == 1

abbrev pub needs_arg : Info → Bool
needs_arg f = f.is_vararg / 4 % 2 == 1

abbrev pub size_code : Info → ℕ
size_code f = length f.code

-- `GET_OPCODE(i) == o`
abbrev pub is_op : OpCode → ℕ → Bool
is_op o i = get field_op i == number o

-- `precheck`
unfoldable pub precheck : Info → Verdict (Unit {0})
precheck f = do
  check (leb f.maxstacksize max_stack)
  check (leb (f.numparams + f.is_vararg % 2) f.maxstacksize)
  check (not (needs_arg f) || has_arg f)
  check (leb (length f.upvalues) f.nups)
  check (length f.lineinfo == size_code f || length f.lineinfo == 0)
  check (ltb 0 (size_code f))
  i ← read_at f.code (size_code f - 1)
  check (is_op op_return i)

-- `luaG_checkopenop`
unfoldable pub check_open_op : ℕ → Verdict (Unit {0})
check_open_op i = check (
    (is_op op_call i || is_op op_tailcall i || is_op op_return i || is_op op_setlist i)
    && get field_b i == 0)

-- `checkArgMode`
unfoldable pub check_arg_mode : Info → ℕ → ArgMask → Verdict (Unit {0})
check_arg_mode f r arg_n = check (r == 0)
check_arg_mode f r arg_u = accept tt
check_arg_mode f r arg_r = check (ltb r f.maxstacksize)
check_arg_mode f r arg_k =
    check (if isk r == 0 then ltb r f.maxstacksize else ltb (indexk r) (length f.constants))

-- `OP_SETLIST` with its count in the next word.
abbrev pub takes_count : ℕ → Bool
takes_count i = is_op op_setlist i && get field_c i == 0

-- The `for` over `j` that goes back from `dest`: `n` words are left, and the result is the number of
-- rounds.
unfoldable pub setlist_run : List ℕ → ℕ → Verdict ℕ
setlist_run code zero = accept 0
setlist_run code (suc n) = do
  d ← read_at code n
  let further = do j ← setlist_run code n; accept (j + 1)
  if takes_count d then further else accept 0

-- `pc+1+b`, if it is not negative.
abbrev pub jump_dest : ℕ → ℤ → Option ℕ
jump_dest pc (pos b) = some (pc + 1 + b)
jump_dest pc (negsuc b) = if leb (b + 1) (pc + 1) then some (pc + 1 - (b + 1)) else none

-- The checks of a jump, by its destination.
unfoldable pub check_dest : Info → Option ℕ → Verdict (Unit {0})
check_dest f none = reject
check_dest f (some dest) = do
  check (ltb dest (size_code f))
  j ← setlist_run f.code dest
  check (j % 2 == 0)

-- The first `switch` of `symbexec`, on the mode of the operation.
unfoldable pub check_mode : Info → OpCode → ℕ → ℕ → OpMode → Verdict (Unit {0})
check_mode f o pc i iabc = do
  check_arg_mode f (get field_b i) (get_b_mode o)
  check_arg_mode f (get field_c i) (get_c_mode o)
check_mode f o pc i iabx = elim (get_b_mode o) [
  | arg_k ↦ check (ltb (get field_bx i) (length f.constants))
  | _ ↦ accept tt
]
check_mode f o pc i iasbx = elim (get_b_mode o) [
  | arg_r ↦ check_dest f (jump_dest pc (getarg_sbx i))
  | _ ↦ accept tt
]

-- The checks of an operation that is a test.
unfoldable pub check_test : Info → Bool → ℕ → Verdict (Unit {0})
check_test f false pc = accept tt
check_test f true pc = do
  check (ltb (pc + 2) (size_code f))
  i ← read_at f.code (pc + 1)
  check (is_op op_jmp i)

abbrev pub nups_at : Protos → ℕ → Verdict ℕ
nups_at Protos.none b = fault
nups_at (more (proto g gs) fs) zero = accept g.nups
nups_at (more g fs) (suc b) = nups_at fs b

-- The `for` of `OP_CLOSURE` over the words behind it: `n` words from `pc` on.
unfoldable pub check_captures : List ℕ → ℕ → ℕ → Verdict (Unit {0})
check_captures code pc zero = accept tt
check_captures code pc (suc n) = do
  i ← read_at code pc
  check (is_op op_getupval i || is_op op_move i)
  check_captures code (suc pc) n

abbrev pub is_string : Constant → Bool
is_string (string s) = true
is_string _ = false
