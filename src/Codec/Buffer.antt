-- ===== src/Codec/Buffer.antt =====
-- What luaEngine/Codec.h takes from the muduo network library (not part of the repository):
-- the input and output buffer `muduo::net::Buffer` and `sockets::hostToNetwork32`.
-- The laws are the documented behaviour of those calls, over the readable bytes of a buffer.
use lua_engine.Base.{
  ℕ, ◌+◌, ◌*◌, ◌/◌, ◌%◌, ◌^◌, ◌≤◌, ◌<◌, ◌≡◌, List, [], ◌∷◌, ◌++◌, length, take, drop,
}
use lua_engine.Base.Int.{ℤ, signed32}

-- The number that four bytes in network order stand for.
abbrev pub be32 : List ℕ → ℕ
be32 (a ∷ b ∷ c ∷ d ∷ _) = ((a * 256 + b) * 256 + c) * 256 + d
be32 _ = 0

-- A number below 2 ^ 32 as four bytes in network order.
abbrev pub be_bytes : ℕ → List ℕ
be_bytes w = (w / 2 ^ 24 % 256) ∷ (w / 2 ^ 16 % 256) ∷ (w / 2 ^ 8 % 256) ∷ (w % 256) ∷ []

pub record Muduo : Type 1 where
  pub Buffer : Type 0
  pub contents : Buffer → List ℕ
  pub readable_bytes : Buffer → ℕ
  pub prependable_bytes : Buffer → ℕ
  pub peek_int32 : Buffer → ℤ
  -- `string(buf->peek(), len)`
  pub peek : Buffer → ℕ → List ℕ
  pub retrieve : Buffer → ℕ → Buffer
  pub fresh : Buffer
  pub append : Buffer → List ℕ → Buffer
  pub prepend : Buffer → List ℕ → Buffer
  -- the bytes in memory of the result of `hostToNetwork32`
  pub host_to_network32 : ℕ → List ℕ
  pub readable_law : (b : Buffer) → readable_bytes b ≡ length (contents b)
  pub peek_int32_law :
      (b : Buffer) → 4 ≤ length (contents b) → peek_int32 b ≡ signed32 (be32 (contents b))
  pub peek_law : (b : Buffer) (n : ℕ) → n ≤ length (contents b) → peek b n ≡ take n (contents b)
  pub retrieve_law :
      (b : Buffer) (n : ℕ) → n ≤ length (contents b) → contents (retrieve b n) ≡ drop n (contents b)
  pub fresh_law : contents fresh ≡ []
  pub fresh_room : 8 ≤ prependable_bytes fresh
  pub append_law : (b : Buffer) (xs : List ℕ) → contents (append b xs) ≡ contents b ++ xs
  pub append_room :
      (b : Buffer) (xs : List ℕ) → 8 ≤ prependable_bytes b → 8 ≤ prependable_bytes (append b xs)
  pub prepend_law :
      (b : Buffer) (xs : List ℕ)
      → length xs ≤ prependable_bytes b
      → contents (prepend b xs) ≡ xs ++ contents b
  pub network_law : (w : ℕ) → w < 2 ^ 32 → host_to_network32 w ≡ be_bytes w
