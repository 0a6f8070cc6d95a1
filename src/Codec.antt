-- ===== src/Codec.antt =====
-- luaEngine/Codec.h: the messages of the server and the codec that frames them, a 32-bit length
-- in network order before the bytes of each message.
-- A connection and a receive time are values of types that the code only passes on.
pub mod Buffer
pub mod Frame
pub mod Scan
pub mod Streams
pub mod Feed
pub mod RoundTrip
use lua_engine.Base.{
  ℕ, zero, suc, ◌+◌, ◌%◌, ◌^◌, Bool, true, false, ◌||◌, Option, none, some, List, [], ◌∷◌, length,
  leb, if◌then◌else◌,
}
use lua_engine.Base.Int.{ℤ, pos, pos_part, ltb_ℤ}
use Buffer.{Muduo}

-- `class MessageQueue`: one received message.
pub record MessageQueue (Conn Time : Type 0) : Type 0 where
  pub conn : Conn
  pub message : List ℕ
  pub timestamp : Time

-- What `onMessage` does to the world, in order.
pub data Effect (Conn Time : Type 0) : Type 0 where
  log_error : ℤ → Effect Conn Time
  shutdown : Conn → Effect Conn Time
  callback : MessageQueue Conn Time → Effect Conn Time

-- `kHeaderLen`
abbrev pub header_len : ℕ
header_len = 4

abbrev pub max_len : ℕ
max_len = 65536

module _ (m : Muduo) {Conn Time : Type 0} where
  open m use {Buffer, readable_bytes, peek_int32, peek, retrieve}

  -- The `while` of `onMessage`; `none` means that the fuel ran out. `len + kHeaderLen` is a sum of
  -- `size_t`, where a non-negative `len` is itself.
  unfoldable pub on_message_loop :
      ℕ → Conn → Buffer → Time → Option (Buffer × List (Effect Conn Time))
  on_message_loop zero conn buf t = none
  on_message_loop (suc fuel) conn buf t = elim (leb header_len (readable_bytes buf)) [
    | false ↦ some (buf, [])
    | true ↦
        let len = peek_int32 buf in
        elim (ltb_ℤ (pos max_len) len || ltb_ℤ len (pos 0)) [
          | true ↦ some (buf, log_error len ∷ shutdown conn ∷ [])
          | false ↦ elim (leb (pos_part len + header_len) (readable_bytes buf)) [
            | false ↦ some (buf, [])
            | true ↦
                let body = retrieve buf header_len in
                let message : MessageQueue Conn Time = record {
                  conn = conn;
                  message = peek body (pos_part len);
                  timestamp = t;
                } in
                elim (on_message_loop fuel conn (retrieve body (pos_part len)) t) [
                  | none ↦ none
                  | some (buf', effects) ↦ some (buf', callback message ∷ effects)
                ]
          ]
        ]
  ]

  -- Each round takes a header at least, so one round more than there are bytes is enough.
  unfoldable pub on_message : Conn → Buffer → Time → Option (Buffer × List (Effect Conn Time))
  on_message conn buf t = on_message_loop (suc (readable_bytes buf)) conn buf t

module _ (m : Muduo) where
  open m use {Buffer, fresh, append, prepend, host_to_network32}

  -- `send`: the buffer that is handed to `conn->send`. The cast to `int32_t` keeps the low 32 bits.
  unfoldable pub send : List ℕ → Buffer
  send message =
      let buf = append fresh message in
      let len = length message % 2 ^ 32 in prepend buf (host_to_network32 len)
