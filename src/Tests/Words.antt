-- ===== src/Tests/Words.antt =====
-- Instructions and floating-point bytes at concrete numbers.
use lua_engine.Base.{◌<◌, ◌≡◌, refl, some, arith}
use lua_engine.Lua.Opcode.{field_op, field_a, field_b, field_c, get, create_abc}
use lua_engine.Lua.Opcode.Fields.{create_abc-get}
use lua_engine.Lua.Number.{shrink, int2fb}

create_abc-get_example :
    (create_abc 12 200 300 17 < 0x100000000)
    × (get field_op (create_abc 12 200 300 17) ≡ 12)
    × (get field_a (create_abc 12 200 300 17) ≡ 200)
    × (get field_b (create_abc 12 200 300 17) ≡ 300)
    × (get field_c (create_abc 12 200 300 17) ≡ 17)
    × (create_abc
          (get field_op 0xfedcba98)
          (get field_a 0xfedcba98)
          (get field_b 0xfedcba98)
          (get field_c 0xfedcba98)
        ≡ 0xfedcba98)
create_abc-get_example =
    create_abc-get 12 200 300 17 0xfedcba98 (omega arith) (omega arith) (omega arith) (omega arith)
      (omega arith)

-- The largest `unsigned int` wraps in the first round.
int2fb_largest : int2fb 0xffffffff ≡ some 0
unfolding int2fb shrink
int2fb_largest = refl
