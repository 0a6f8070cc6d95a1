-- ===== src/Lua/Opcode/Fields.antt =====
-- lua515/lopcodes.h: reading a field of an instruction that has been made or changed.
use lua_engine.Base.{ℕ, ◌+◌, ◌%◌, ◌^◌, ◌≤◌, ◌<◌, ◌≡◌, ◌⊎◌, arith}
use lua_engine.Base.Int.{ℤ, pos, negsuc, pos_part, neg_part}
use lua_engine.Lua.Opcode.{
  Field, field_op, field_a, field_b, field_c, field_bx, size, position, get, set, getarg_sbx,
  setarg_sbx, create_abc, create_abx, excess, isk, indexk, rkask, bitrk,
}

-- Two fields that share no bit.
abbrev pub Apart : Field → Field → Type 0
Apart f g = (position f + size f ≤ position g) ⊎ (position g + size g ≤ position f)

get-set_same : (f : Field) (i v : ℕ) → get f (set f i v) ≡ v % 2 ^ size f
get-set_same field_op i v = omega arith
get-set_same field_a i v = omega arith
get-set_same field_b i v = omega arith
get-set_same field_c i v = omega arith
get-set_same field_bx i v = omega arith

set-word : (f : Field) (i v : ℕ) → i < 2 ^ 32 → set f i v < 2 ^ 32
set-word field_op i v h = omega arith
set-word field_a i v h = omega arith
set-word field_b i v h = omega arith
set-word field_c i v h = omega arith
set-word field_bx i v h = omega arith

get-set_other : (f g : Field) (i v : ℕ) → Apart f g → get g (set f i v) ≡ get g i
get-set_other field_op field_op i v h = absurd (omega arith)
get-set_other field_op field_a i v h = omega arith
get-set_other field_op field_b i v h = omega arith
get-set_other field_op field_c i v h = omega arith
get-set_other field_op field_bx i v h = omega arith
get-set_other field_a field_op i v h = omega arith
get-set_other field_a field_a i v h = absurd (omega arith)
get-set_other field_a field_b i v h = omega arith
get-set_other field_a field_c i v h = omega arith
get-set_other field_a field_bx i v h = omega arith
get-set_other field_b field_op i v h = omega arith
get-set_other field_b field_a i v h = omega arith
get-set_other field_b field_b i v h = absurd (omega arith)
get-set_other field_b field_c i v h = omega arith
get-set_other field_b field_bx i v h = absurd (omega arith)
get-set_other field_c field_op i v h = omega arith
get-set_other field_c field_a i v h = omega arith
get-set_other field_c field_b i v h = omega arith
get-set_other field_c field_c i v h = absurd (omega arith)
get-set_other field_c field_bx i v h = absurd (omega arith)
get-set_other field_bx field_op i v h = omega arith
get-set_other field_bx field_a i v h = omega arith
get-set_other field_bx field_b i v h = absurd (omega arith)
get-set_other field_bx field_c i v h = absurd (omega arith)
get-set_other field_bx field_bx i v h = absurd (omega arith)

-- Setting a field of an instruction leaves a 32-bit word, whose field is the new value cut to the
-- size of the field; a field that shares no bit with it keeps its value.
pub get-set :
    (f g : Field) (i v : ℕ)
    → i < 2 ^ 32
    → Apart f g
    → (set f i v < 2 ^ 32) × (get f (set f i v) ≡ v % 2 ^ size f) × (get g (set f i v) ≡ get g i)
get-set f g i v h k = (set-word f i v h, get-set_same f i v, get-set_other f g i v k)

-- An instruction made of four arguments that fit their fields is a 32-bit word and gives them back,
-- and a 32-bit word is the instruction made of its own four fields.
pub create_abc-get :
    (o a b c i : ℕ)
    → o < 2 ^ 6
    → a < 2 ^ 8
    → b < 2 ^ 9
    → c < 2 ^ 9
    → i < 2 ^ 32
    → (create_abc o a b c < 2 ^ 32)
      × (get field_op (create_abc o a b c) ≡ o)
      × (get field_a (create_abc o a b c) ≡ a)
      × (get field_b (create_abc o a b c) ≡ b)
      × (get field_c (create_abc o a b c) ≡ c)
      × (create_abc (get field_op i) (get field_a i) (get field_b i) (get field_c i) ≡ i)
create_abc-get o a b c i ho ha hb hc hi =
    (omega arith, omega arith, omega arith, omega arith, omega arith, omega arith)

-- An instruction made of an operation, `A` and `Bx` that fit their fields gives them back.
pub create_abx-get :
    (o a bx : ℕ)
    → o < 2 ^ 6
    → a < 2 ^ 8
    → bx < 2 ^ 18
    → (get field_op (create_abx o a bx) ≡ o)
      × (get field_a (create_abx o a bx) ≡ a)
      × (get field_bx (create_abx o a bx) ≡ bx)
create_abx-get o a bx ho ha hb = (omega arith, omega arith, omega arith)

-- The signed argument of a jump is read back as it was set, if it is between -131071 and 131072, and
-- the operation and `A` are kept.
pub getarg_sbx-setarg_sbx :
    (i : ℕ) (b : ℤ)
    → pos_part b ≤ 131072
    → neg_part b ≤ 131071
    → (getarg_sbx (setarg_sbx i b) ≡ b)
      × (get field_op (setarg_sbx i b) ≡ get field_op i)
      × (get field_a (setarg_sbx i b) ≡ get field_a i)
getarg_sbx-setarg_sbx i (pos n) h k = (
  ground (arith, get-set_same field_bx i (excess (pos n))),
  get-set_other field_bx field_op i _ (omega arith),
  get-set_other field_bx field_a i _ (omega arith),
)
getarg_sbx-setarg_sbx i (negsuc n) h k = (
  ground (arith, get-set_same field_bx i (excess (negsuc n))),
  get-set_other field_bx field_op i _ (omega arith),
  get-set_other field_bx field_a i _ (omega arith),
)

-- A constant's index below 256, coded as a register-or-constant argument, fits the field, is told
-- from every register, and is read back; a register below 256 is no constant.
pub indexk-rkask :
    (x : ℕ)
    → x < 2 ^ 8
    → (rkask x < 2 ^ 9) × (isk (rkask x) ≡ bitrk) × (indexk (rkask x) ≡ x) × (isk x ≡ 0)
indexk-rkask x h = (omega arith, omega arith, omega arith, omega arith)
