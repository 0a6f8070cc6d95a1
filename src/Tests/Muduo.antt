-- ===== src/Tests/Muduo.antt =====
-- A buffer that is the list of its bytes, with room for 8 bytes in front.
use lua_engine.Base.{ℕ, refl, List, [], ◌++◌, length, take, drop, arith}
use lua_engine.Base.Int.{signed32}
use lua_engine.Codec.Buffer.{Muduo, be32, be_bytes}

abbrev pub bytes : Muduo
bytes = record {
  Buffer = List ℕ;
  contents = λ b. b;
  readable_bytes = length;
  prependable_bytes = λ b. 8;
  peek_int32 = λ b. signed32 (be32 b);
  peek = λ b n. take n b;
  retrieve = λ b n. drop n b;
  fresh = [];
  append = λ b xs. b ++ xs;
  prepend = λ b xs. xs ++ b;
  host_to_network32 = be_bytes;
  readable_law = λ b. refl;
  peek_int32_law = λ b h. refl;
  peek_law = λ b n h. refl;
  retrieve_law = λ b n h. refl;
  fresh_law = refl;
  fresh_room = omega arith;
  append_law = λ b xs. refl;
  append_room = λ b xs h. h;
  prepend_law = λ b xs h. refl;
  network_law = λ w h. refl;
}
