-- ===== src/Tests/Checker.antt =====
-- A function with a jump, run through the checker and through the loader.
use lua_engine.Base.{ℕ, ◌≡◌, ◌≢◌, refl, false, some, [], ◌∷◌, arith}
use lua_engine.Lua.Zio.{Zio, init}
use lua_engine.Lua.Chunk.{Info, proto, Protos}
use lua_engine.Lua.Chunk.Dump.{dump}
use lua_engine.Lua.Chunk.Whole.{append_writer}
use lua_engine.Lua.Opcode.{create_abc, create_abx}
use lua_engine.Lua.Opcode.Modes.{opcode}
use lua_engine.Lua.Checks.{
  Verdict, fault, no_reg, precheck, check_mode, check_dest, setlist_run, check_test, check_arg_mode,
  check_open_op,
}
use lua_engine.Lua.Checker.{
  symbexec, check_code, rounds, round, check_instruction, check_op, check_vararg,
}
use lua_engine.Lua.Checker.Accepted.{symbexec-Ends}

-- JMP over a MOVE, to RETURN.
abbrev jumping : Info
jumping = record {
  source = some (b'=' ∷ b'?' ∷ []);
  linedefined = 0;
  lastlinedefined = 0;
  nups = 0;
  numparams = 0;
  is_vararg = 0;
  maxstacksize = 2;
  code = create_abx 22 0 131072 ∷ create_abc 0 0 0 0 ∷ create_abc 30 0 1 0 ∷ [];
  constants = [];
  lineinfo = [];
  locvars = [];
  upvalues = [];
}

-- The same with a jump one word too far.
abbrev overshooting : Info
overshooting = record jumping {
  code = create_abx 22 0 131073 ∷ create_abc 0 0 0 0 ∷ create_abc 30 0 1 0 ∷ [];
}

rejects_overshooting : check_code (proto overshooting Protos.none) ≡ false
unfolding check_code symbexec precheck rounds round opcode check_instruction check_mode check_dest
    setlist_run check_test check_op check_arg_mode
rejects_overshooting = refl

symbexec-Ends_example :
    (v : Verdict ℕ) × (symbexec overshooting Protos.none 3 no_reg ≡ some v) × (v ≢ fault)
symbexec-Ends_example = symbexec-Ends overshooting Protos.none 3 no_reg (omega arith)

-- VARARG of all arguments, and a RETURN of all of them.
abbrev spreading : Info
spreading = record jumping {
  is_vararg = 2;
  code = create_abc 37 0 0 0 ∷ create_abc 30 0 0 0 ∷ create_abc 30 0 1 0 ∷ [];
}

-- The same without the flag of a vararg function.
rejects_no_vararg : check_code (proto (record spreading { is_vararg = 0 }) Protos.none) ≡ false
unfolding check_code symbexec precheck rounds round opcode check_instruction check_mode check_dest
    setlist_run check_test check_op check_arg_mode check_vararg check_open_op
rejects_no_vararg = refl

abbrev chunk : Zio
chunk = init ((dump append_writer false (proto jumping Protos.none) []).state ∷ [])
