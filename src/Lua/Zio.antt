-- ===== src/Lua/Zio.antt =====
-- lua515/lzio.c and lzio.h: the buffered input stream. The reader is a callback of the caller: it is
-- the list of the pieces that it will return, the end of the list for NULL.
pub mod Read
use lua_engine.Base.{
  ℕ, zero, suc, ◌+◌, ◌-◌, Option, none, some, List, [], ◌∷◌, ◌++◌, leb, if◌then◌else◌, length, take,
  drop,
}

-- `struct Zio`: the bytes from `p` on, `n` of them, and the reader.
pub record Zio : Type 0 where
  pub buffer : List ℕ
  pub reader : List (List ℕ)

-- `luaZ_init`
abbrev pub init : List (List ℕ) → Zio
init pieces = record { buffer = []; reader = pieces }

-- `luaZ_fill`: the first byte of the next piece; `none` is `EOZ`. An empty piece ends the stream too.
unfoldable pub fill_from : List ℕ → List (List ℕ) → Option ℕ × Zio
fill_from old [] = (none, record { buffer = old; reader = [] })
fill_from old ([] ∷ pieces) = (none, record { buffer = old; reader = pieces })
fill_from old ((b ∷ bs) ∷ pieces) = (some b, record { buffer = bs; reader = pieces })

unfoldable pub fill : Zio → Option ℕ × Zio
unfolding fill_from
fill z = fill_from z.buffer z.reader

-- `luaZ_lookahead`: at an empty buffer it fills, and puts the byte back.
unfoldable pub lookahead_in : List ℕ → List (List ℕ) → Option ℕ × Zio
unfolding fill_from
lookahead_in [] pieces =
    let (c, z) = fill_from [] pieces in
    elim c [ none ↦ (none, z) | some b ↦ (some b, record z { buffer = b ∷ z.buffer }) ]
lookahead_in (b ∷ bs) pieces = (some b, record { buffer = b ∷ bs; reader = pieces })

unfoldable pub lookahead : Zio → Option ℕ × Zio
unfolding lookahead_in
lookahead z = lookahead_in z.buffer z.reader

-- What `luaZ_read` comes to: the bytes copied, the number of bytes missing, and the stream.
pub record Got : Type 0 where
  pub bytes : List ℕ
  pub missing : ℕ
  pub stream : Zio

-- The `while (n)` of `luaZ_read`. Each round copies a byte at least, so `n` rounds are enough.
unfoldable pub read_loop : ℕ → ℕ → Zio → Got
unfolding lookahead
read_loop zero n z = record { bytes = []; missing = n; stream = z }
read_loop (suc fuel) zero z = record { bytes = []; missing = 0; stream = z }
read_loop (suc fuel) (suc n) z =
    let (c, z') = lookahead z in
    let m = if leb (suc n) (length z'.buffer) then suc n else length z'.buffer in
    let got = read_loop fuel (suc n - m) (record z' { buffer = drop m z'.buffer }) in
    elim c [
      | none ↦ record { bytes = []; missing = suc n; stream = z' }
      | some b ↦ record got { bytes = take m z'.buffer ++ got.bytes }
    ]

-- `luaZ_read`
unfoldable pub read : ℕ → Zio → Got
unfolding read_loop
read n z = read_loop n n z
