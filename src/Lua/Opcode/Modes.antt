-- ===== src/Lua/Opcode/Modes.antt =====
-- lua515/lopcodes.h and lopcodes.c: the operations and the table of their argument modes.
use lua_engine.Base.{
  ℕ, ◌+◌, ◌*◌, ◌/◌, ◌%◌, ◌≡◌, sym, ap, ◌∙◌, eqb→eq, Bool, Option, none, some, List, [], ◌∷◌, ◌==◌,
  if◌then◌else◌, Bool-cases, inl, inr,
}

-- `OpCode`
pub data OpCode : Type 0 where
  op_move op_loadk op_loadbool op_loadnil op_getupval op_getglobal op_gettable : OpCode
  op_setglobal op_setupval op_settable op_newtable op_self op_add op_sub op_mul op_div : OpCode
  op_mod op_pow op_unm op_not op_len op_concat op_jmp op_eq op_lt op_le op_test : OpCode
  op_testset op_call op_tailcall op_return op_forloop op_forprep op_tforloop op_setlist : OpCode
  op_close op_closure op_vararg : OpCode

-- The value of each `OpCode`.
abbrev pub number : OpCode → ℕ
number op_move = 0
number op_loadk = 1
number op_loadbool = 2
number op_loadnil = 3
number op_getupval = 4
number op_getglobal = 5
number op_gettable = 6
number op_setglobal = 7
number op_setupval = 8
number op_settable = 9
number op_newtable = 10
number op_self = 11
number op_add = 12
number op_sub = 13
number op_mul = 14
number op_div = 15
number op_mod = 16
number op_pow = 17
number op_unm = 18
number op_not = 19
number op_len = 20
number op_concat = 21
number op_jmp = 22
number op_eq = 23
number op_lt = 24
number op_le = 25
number op_test = 26
number op_testset = 27
number op_call = 28
number op_tailcall = 29
number op_return = 30
number op_forloop = 31
number op_forprep = 32
number op_tforloop = 33
number op_setlist = 34
number op_close = 35
number op_closure = 36
number op_vararg = 37

abbrev pub all_ops : List OpCode
all_ops =
    op_move ∷ op_loadk ∷ op_loadbool ∷ op_loadnil ∷ op_getupval ∷ op_getglobal ∷ op_gettable
    ∷ op_setglobal ∷ op_setupval ∷ op_settable ∷ op_newtable ∷ op_self ∷ op_add ∷ op_sub ∷ op_mul
    ∷ op_div ∷ op_mod ∷ op_pow ∷ op_unm ∷ op_not ∷ op_len ∷ op_concat ∷ op_jmp ∷ op_eq ∷ op_lt
    ∷ op_le ∷ op_test ∷ op_testset ∷ op_call ∷ op_tailcall ∷ op_return ∷ op_forloop ∷ op_forprep
    ∷ op_tforloop ∷ op_setlist ∷ op_close ∷ op_closure ∷ op_vararg ∷ []

-- The cast to `OpCode`; `none` is a number that is not below `NUM_OPCODES`.
unfoldable pub find_op : ℕ → List OpCode → Option OpCode
find_op n [] = none
find_op n (o ∷ os) = if number o == n then some o else find_op n os

unfoldable pub opcode : ℕ → Option OpCode
unfolding find_op
opcode n = find_op n all_ops

number_or : ℕ → Option OpCode → ℕ
number_or n none = n
number_or n (some o) = number o

find_op-number : (n : ℕ) (os : List OpCode) (o : OpCode) → find_op n os ≡ some o → number o ≡ n
unfolding find_op number_or
find_op-number n [] o h = cc
find_op-number n (p ∷ os) o h = elim (Bool-cases (number p == n)) [
  | inl e ↦
      let found : some p ≡ some o = rw e at h in
      let same : number p ≡ number o = ap (number_or n) found in sym same ∙ eqb→eq (number p) n e
  | inr e ↦ find_op-number n os o (rw e at h)
]

pub opcode-number : (n : ℕ) (o : OpCode) → opcode n ≡ some o → number o ≡ n
unfolding opcode
opcode-number n o h = find_op-number n all_ops o h

-- `OpMode` and `OpArgMask`
pub data OpMode : Type 0 where
  iabc iabx iasbx : OpMode

pub data ArgMask : Type 0 where
  arg_n arg_u arg_r arg_k : ArgMask

abbrev mode_bits : OpMode → ℕ
mode_bits iabc = 0
mode_bits iabx = 1
mode_bits iasbx = 2

abbrev mask_bits : ArgMask → ℕ
mask_bits arg_n = 0
mask_bits arg_u = 1
mask_bits arg_r = 2
mask_bits arg_k = 3

-- `opmode`
abbrev opmode : ℕ → ℕ → ArgMask → ArgMask → OpMode → ℕ
opmode t a b c m = t * 128 + a * 64 + mask_bits b * 16 + mask_bits c * 4 + mode_bits m

-- `luaP_opmodes`
abbrev pub op_modes : OpCode → ℕ
op_modes op_move = opmode 0 1 arg_r arg_n iabc
op_modes op_loadk = opmode 0 1 arg_k arg_n iabx
op_modes op_loadbool = opmode 0 1 arg_u arg_u iabc
op_modes op_loadnil = opmode 0 1 arg_r arg_n iabc
op_modes op_getupval = opmode 0 1 arg_u arg_n iabc
op_modes op_getglobal = opmode 0 1 arg_k arg_n iabx
op_modes op_gettable = opmode 0 1 arg_r arg_k iabc
op_modes op_setglobal = opmode 0 0 arg_k arg_n iabx
op_modes op_setupval = opmode 0 0 arg_u arg_n iabc
op_modes op_settable = opmode 0 0 arg_k arg_k iabc
op_modes op_newtable = opmode 0 1 arg_u arg_u iabc
op_modes op_self = opmode 0 1 arg_r arg_k iabc
op_modes op_add = opmode 0 1 arg_k arg_k iabc
op_modes op_sub = opmode 0 1 arg_k arg_k iabc
op_modes op_mul = opmode 0 1 arg_k arg_k iabc
op_modes op_div = opmode 0 1 arg_k arg_k iabc
op_modes op_mod = opmode 0 1 arg_k arg_k iabc
op_modes op_pow = opmode 0 1 arg_k arg_k iabc
op_modes op_unm = opmode 0 1 arg_r arg_n iabc
op_modes op_not = opmode 0 1 arg_r arg_n iabc
op_modes op_len = opmode 0 1 arg_r arg_n iabc
op_modes op_concat = opmode 0 1 arg_r arg_r iabc
op_modes op_jmp = opmode 0 0 arg_r arg_n iasbx
op_modes op_eq = opmode 1 0 arg_k arg_k iabc
op_modes op_lt = opmode 1 0 arg_k arg_k iabc
op_modes op_le = opmode 1 0 arg_k arg_k iabc
op_modes op_test = opmode 1 1 arg_r arg_u iabc
op_modes op_testset = opmode 1 1 arg_r arg_u iabc
op_modes op_call = opmode 0 1 arg_u arg_u iabc
op_modes op_tailcall = opmode 0 1 arg_u arg_u iabc
op_modes op_return = opmode 0 0 arg_u arg_n iabc
op_modes op_forloop = opmode 0 1 arg_r arg_n iasbx
op_modes op_forprep = opmode 0 1 arg_r arg_n iasbx
op_modes op_tforloop = opmode 1 0 arg_n arg_u iabc
op_modes op_setlist = opmode 0 0 arg_u arg_u iabc
op_modes op_close = opmode 0 0 arg_n arg_n iabc
op_modes op_closure = opmode 0 1 arg_u arg_n iabx
op_modes op_vararg = opmode 0 1 arg_u arg_n iabc

-- The casts of two bits.
abbrev mode_of : ℕ → OpMode
mode_of n = if n == 0 then iabc else if n == 1 then iabx else iasbx

abbrev mask_of : ℕ → ArgMask
mask_of n = if n == 0 then arg_n else if n == 1 then arg_u else if n == 2 then arg_r else arg_k

-- `getOpMode`, `getBMode`, `getCMode`, `testAMode` and `testTMode`
abbrev pub get_op_mode : OpCode → OpMode
get_op_mode o = mode_of (op_modes o % 4)

abbrev pub get_b_mode : OpCode → ArgMask
get_b_mode o = mask_of (op_modes o / 16 % 4)

abbrev pub get_c_mode : OpCode → ArgMask
get_c_mode o = mask_of (op_modes o / 4 % 4)

abbrev pub test_a_mode : OpCode → Bool
test_a_mode o = op_modes o / 64 % 2 == 1

abbrev pub test_t_mode : OpCode → Bool
test_t_mode o = op_modes o / 128 % 2 == 1
