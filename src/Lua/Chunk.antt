-- ===== src/Lua/Chunk.antt =====
-- lua515: precompiled chunks, as ldump.c writes and lundump.c reads them, on a little-endian machine
-- with 4-byte `int` and `Instruction` and 8-byte `size_t` and `lua_Number`.
-- A number is the 64-bit pattern of its double, an instruction its 32-bit pattern, and an entry of
-- `lineinfo` the 32-bit pattern of its `int`. A string is its bytes, without the final zero.
pub mod Dump
pub mod Undump
pub mod Layout
pub mod Writer
pub mod Reader
pub mod Items
pub mod RoundTrip
pub mod Whole
use lua_engine.Base.{ℕ, Bool, Option, List, [], ◌∷◌}

-- A constant (`TValue`): the cases that may stand in a chunk.
pub data Constant : Type 0 where
  nil : Constant
  boolean : Bool → Constant
  number : ℕ → Constant
  string : Option (List ℕ) → Constant

-- `struct LocVar`
pub record LocVar : Type 0 where
  pub varname : Option (List ℕ)
  pub startpc : ℕ
  pub endpc : ℕ

-- `struct Proto`, without the functions defined inside it and without what the collector uses.
pub record Info : Type 0 where
  pub source : Option (List ℕ)
  pub linedefined : ℕ
  pub lastlinedefined : ℕ
  pub nups : ℕ
  pub numparams : ℕ
  pub is_vararg : ℕ
  pub maxstacksize : ℕ
  pub code : List ℕ
  pub constants : List Constant
  pub lineinfo : List ℕ
  pub locvars : List LocVar
  pub upvalues : List (Option (List ℕ))

mutual
  -- `struct Proto`
  pub data Proto : Type 0 where
    proto : Info → Protos → Proto

  pub data Protos : Type 0 where
    none : Protos
    more : Proto → Protos → Protos

-- "\033Lua", version 0x51, format 0, little-endian, the four sizes, and a number that is no integer.
abbrev pub header : List ℕ
header = 27 ∷ 76 ∷ 117 ∷ 97 ∷ 0x51 ∷ 0 ∷ 1 ∷ 4 ∷ 8 ∷ 4 ∷ 8 ∷ 0 ∷ []
