-- ===== src/Lua/Opcode.antt =====
-- lua515/lopcodes.h: the instructions of the virtual machine, 32-bit words with four fields.
-- A shift and a mask are written as a division and a remainder, and an `|` of words that share no
-- bit as a sum.
pub mod Fields
pub mod Modes
use lua_engine.Base.{ℕ, ◌+◌, ◌-◌, ◌*◌, ◌/◌, ◌%◌, ◌^◌, ◌≤◌, ◌⊎◌, if◌then◌else◌, leb}
use lua_engine.Base.Int.{ℤ, pos, negsuc}

-- The fields of an instruction; `field_bx` is `field_b` and `field_c` together.
pub data Field : Type 0 where
  field_op field_a field_b field_c field_bx : Field

-- `SIZE_OP` to `SIZE_Bx`
abbrev pub size : Field → ℕ
size field_op = 6
size field_a = 8
size field_b = 9
size field_c = 9
size field_bx = 18

-- `POS_OP` to `POS_Bx`
abbrev pub position : Field → ℕ
position field_op = 0
position field_a = 6
position field_b = 23
position field_c = 14
position field_bx = 14

-- `GET_OPCODE` and `GETARG_A` to `GETARG_Bx`
abbrev pub get : Field → ℕ → ℕ
get f i = i / 2 ^ position f % 2 ^ size f

-- `SET_OPCODE` and `SETARG_A` to `SETARG_Bx`: the field is cleared and then filled.
abbrev pub set : Field → ℕ → ℕ → ℕ
set f i v = (i - get f i * 2 ^ position f) + v % 2 ^ size f * 2 ^ position f

-- `MAXARG_Bx` and `MAXARG_sBx`
abbrev pub maxarg_bx : ℕ
maxarg_bx = 2 ^ 18 - 1

abbrev pub maxarg_sbx : ℕ
maxarg_sbx = maxarg_bx / 2

-- `GETARG_sBx`
abbrev pub getarg_sbx : ℕ → ℤ
getarg_sbx i =
    if leb maxarg_sbx (get field_bx i)
    then pos (get field_bx i - maxarg_sbx)
    else negsuc (maxarg_sbx - get field_bx i - 1)

-- `cast(unsigned int, b + MAXARG_sBx)`, of 32 bits
abbrev pub excess : ℤ → ℕ
excess (pos n) = (n + maxarg_sbx) % 2 ^ 32
excess (negsuc n) = (2 ^ 32 + maxarg_sbx - (n + 1)) % 2 ^ 32

-- `SETARG_sBx`
abbrev pub setarg_sbx : ℕ → ℤ → ℕ
setarg_sbx i b = set field_bx i (excess b)

-- `CREATE_ABC` and `CREATE_ABx`, for arguments that fit their fields.
abbrev pub create_abc : ℕ → ℕ → ℕ → ℕ → ℕ
create_abc o a b c =
    o * 2 ^ position field_op
    + a * 2 ^ position field_a
    + b * 2 ^ position field_b
    + c * 2 ^ position field_c

abbrev pub create_abx : ℕ → ℕ → ℕ → ℕ
create_abx o a bc =
    o * 2 ^ position field_op + a * 2 ^ position field_a + bc * 2 ^ position field_bx

-- `BITRK`, `ISK`, `INDEXK` and `RKASK`, for a `B` or `C` argument.
abbrev pub bitrk : ℕ
bitrk = 2 ^ (size field_b - 1)

abbrev pub isk : ℕ → ℕ
isk x = x / bitrk % 2 * bitrk

abbrev pub indexk : ℕ → ℕ
indexk r = r - isk r

abbrev pub rkask : ℕ → ℕ
rkask x = x - isk x + bitrk
