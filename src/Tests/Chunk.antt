-- ===== src/Tests/Chunk.antt =====
-- A function with a nested one, dumped and read back; a stream in pieces; a writer that fails.
use lua_engine.Base.{
  ℕ, ◌+◌, ◌≡◌, refl, Bool, true, false, some, List, [], ◌∷◌, ◌++◌, arith, zero, suc, drop,
}
use lua_engine.Base.Bytes.{le_bytes}
use lua_engine.Lua.Zio.{Zio, init, read}
use lua_engine.Lua.Zio.Read.{remaining, Reads, read-Reads}
use lua_engine.Lua.Chunk.{nil, boolean, number, string, Info, Proto, proto, Protos, more, header}
use lua_engine.Lua.Chunk.Dump.{dump}
use lua_engine.Lua.Chunk.Undump.{ok, undump}
use lua_engine.Lua.Chunk.Layout.{chunk_blocks, Blocks, function_blocks}
use lua_engine.Lua.Chunk.Writer.{dump-failed}
use lua_engine.Lua.Chunk.RoundTrip.{Loadable, loaded, height}
use lua_engine.Lua.Chunk.Whole.{append_writer, no_source, undump-dump}

abbrev inner : Info
inner = record {
  source = some (b'@' ∷ b'a' ∷ []);
  linedefined = 2;
  lastlinedefined = 3;
  nups = 0;
  numparams = 1;
  is_vararg = 0;
  maxstacksize = 2;
  code = 0x0080001e ∷ [];
  constants = nil ∷ boolean true ∷ number 7 ∷ string (some (b'k' ∷ [])) ∷ [];
  lineinfo = 2 ∷ [];
  locvars = record { varname = some (b'x' ∷ []); startpc = 0; endpc = 1 } ∷ [];
  upvalues = some (b'u' ∷ []) ∷ [];
}

abbrev sample : Proto
sample = proto (record inner { linedefined = 0 }) (more (proto inner Protos.none) Protos.none)

abbrev any_code : Proto → Bool
any_code f = true

sample-Loadable : Loadable any_code false no_source sample
unfolding Loadable
sample-Loadable = (omega arith, omega arith, refl, ((omega arith, omega arith, refl, tt), tt))

undump-dump_example :
    (z : Zio) × (undump any_code 200 (init ((dump append_writer false sample []).state ∷ []))
      ≡ ok sample z)
    × (remaining z ≡ [])
unfolding loaded height dump
undump-dump_example =
    undump-dump any_code false sample 200 (init ((dump append_writer false sample []).state ∷ []))
      [] sample-Loadable (omega arith) refl

read-Reads_example : Reads 3 (1 ∷ 2 ∷ 3 ∷ 4 ∷ []) (read 3 (init ((1 ∷ 2 ∷ []) ∷ (3 ∷ 4 ∷ []) ∷ [])))
read-Reads_example = read-Reads 3 (init ((1 ∷ 2 ∷ []) ∷ (3 ∷ 4 ∷ []) ∷ []))

-- A writer that takes one block and refuses the next.
abbrev one_block : ℕ → List ℕ → ℕ × ℕ
one_block zero b = (0, 1)
one_block (suc s) b = (5, s + 2)

abbrev after_size : Blocks
after_size = drop 2 (chunk_blocks false sample)

-- The second block is the size of the source "@a".
split_blocks : chunk_blocks false sample ≡ (header ∷ []) ++ (le_bytes 8 3 ∷ after_size)
unfolding function_blocks
split_blocks = refl

dump-failed_example : dump one_block false sample 0 ≡ record { state = 2; status = 5 }
dump-failed_example =
    dump-failed one_block false sample 0 1 (header ∷ []) after_size (le_bytes 8 3) split_blocks
      (refl, refl) (λ e. cc)
