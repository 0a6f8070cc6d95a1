-- ===== src/Tests/Codec.antt =====
-- Runs of the codec and of the client over buffers that are lists of bytes.
use lua_engine.Base.{
  ℕ, ◌+◌, ◌<◌, ◌≡◌, refl, true, false, some, List, [], ◌∷◌, All, arith, length, replicate,
  length-replicate, All-replicate, append-nil,
}
use lua_engine.Base.Int.{negsuc}
use lua_engine.Codec.{Effect, log_error, shutdown, callback, on_message, on_message_loop, send}
use lua_engine.Codec.Frame.{IsByte}
use lua_engine.Codec.Feed.{texts, refused, bytes_read, feed, Fed, feed-Fed, NoFrame-nil}
use lua_engine.Codec.RoundTrip.{feed-sent, feed_cuts, feed-send_too_long}
use lua_engine.Client.{run}
use lua_engine.Client.Session.{session-feed}
use lua_engine.Main.{main}
use lua_engine.Main.Arguments.{main-lua_start, spaced}
use lua_engine.Tests.Muduo.{bytes}

-- "hi" and "you"
abbrev pub hi : List ℕ
hi = b'h' ∷ b'i' ∷ []

abbrev you : List ℕ
you = b'y' ∷ b'o' ∷ b'u' ∷ []

abbrev both : List (List ℕ)
both = hi ∷ you ∷ []

-- The frames of the two messages, cut inside the second header.
abbrev two_reads : List (List ℕ × ℕ)
two_reads =
    (0 ∷ 0 ∷ 0 ∷ 2 ∷ b'h' ∷ b'i' ∷ 0 ∷ 0 ∷ [], 1) ∷ (0 ∷ 3 ∷ b'y' ∷ b'o' ∷ b'u' ∷ [], 2) ∷ []

abbrev one_read : List (List ℕ × ℕ)
one_read = (bytes_read two_reads, 5) ∷ []

one_message :
    on_message bytes {Conn = ℕ} {Time = ℕ} 7 (0 ∷ 0 ∷ 0 ∷ 2 ∷ b'h' ∷ b'i' ∷ 0 ∷ []) 1
    ≡ some (0 ∷ [], callback (record { conn = 7; message = hi; timestamp = 1 }) ∷ [])
unfolding on_message on_message_loop
one_message = refl

negative_length :
    on_message bytes {Conn = ℕ} {Time = ℕ} 7 (255 ∷ 255 ∷ 255 ∷ 255 ∷ 1 ∷ []) 1
    ≡ some (255 ∷ 255 ∷ 255 ∷ 255 ∷ 1 ∷ [], log_error (negsuc 0) ∷ shutdown 7 ∷ [])
unfolding on_message on_message_loop
negative_length = refl

feed-sent_example :
    (buf : List ℕ) × (effects : List (Effect ℕ ℕ)) × (feed bytes 7 [] two_reads
      ≡ some (buf, effects))
    × (texts effects ≡ both)
    × (buf ≡ [])
    × (refused effects ≡ false)
unfolding send
feed-sent_example = feed-sent bytes 7 both two_reads (omega arith) (omega arith) refl

abbrev at : List ℕ → ℕ → Effect ℕ ℕ
at msg t = callback (record { conn = 7; message = msg; timestamp = t })

two_reads_run : feed bytes 7 [] two_reads ≡ some ([], at hi 1 ∷ at you 2 ∷ [])
unfolding feed on_message on_message_loop
two_reads_run = refl

one_read_run : feed bytes 7 [] one_read ≡ some ([], at hi 5 ∷ at you 5 ∷ [])
unfolding feed on_message on_message_loop
one_read_run = refl

feed_cuts_example :
    (b : List ℕ) × (es : List (Effect ℕ ℕ)) × (b' : List ℕ) × (es' : List (Effect ℕ ℕ)) × (feed
        bytes 7 [] two_reads
      ≡ some (b, es))
    × (feed bytes 7 [] one_read ≡ some (b', es'))
    × (texts es ≡ texts es')
    × (b ≡ b')
    × (refused es ≡ refused es')
feed_cuts_example = feed_cuts bytes 7 two_reads one_read (omega arith) refl

-- One byte more than the limit.
unfoldable long : List ℕ
long = replicate 65537 0

length-long : length long ≡ 65537
unfolding long
length-long = length-replicate {A = ℕ} 65537 0

long-IsByte : All IsByte long
unfolding long
long-IsByte = All-replicate IsByte 65537 0 (omega arith)

abbrev long_reads : List (List ℕ × ℕ)
long_reads = (send bytes long, 1) ∷ []

feed-send_too_long_example :
    (buf : List ℕ) × (effects : List (Effect ℕ ℕ)) × (feed bytes 7 [] long_reads
      ≡ some (buf, effects))
    × (texts effects ≡ [])
    × (buf ≡ send bytes long)
    × (refused effects ≡ true)
feed-send_too_long_example =
    feed-send_too_long bytes {Conn = ℕ} 7 long long_reads (omega (arith, length-long))
      (omega (arith, length-long)) long-IsByte (append-nil (send bytes long))

feed-Fed_example :
    (buf : List ℕ) × (effects : List (Effect ℕ ℕ)) × (feed bytes 7 [] two_reads
      ≡ some (buf, effects))
    × Fed bytes {Conn = ℕ} {Time = ℕ} 7 [] (bytes_read two_reads) effects buf
feed-Fed_example = feed-Fed bytes 7 two_reads [] (omega arith) NoFrame-nil (omega arith)

session-feed_example :
    (buf : List ℕ) × (effects : List (Effect ℕ ℕ)) × (feed bytes 7 [] two_reads
      ≡ some (buf, effects))
    × (texts effects ≡ both)
    × (refused effects ≡ false)
unfolding send run
session-feed_example =
    session-feed bytes {Conn = ℕ} 7 3 (hi ∷ []) both (you ∷ []) two_reads (omega arith)
      (omega arith) refl

main-lua_start_example : ◌≡◌ {A = List ℕ} (b'h' ∷ b'i' ∷ b' ' ∷ []) (spaced (hi ∷ [])) × (1 < 3 + 1)
unfolding main
main-lua_start_example = main-lua_start (hi ∷ []) (b'h' ∷ b'i' ∷ b' ' ∷ []) refl

abbrev peers : List ℕ
peers = 4 ∷ 9 ∷ []
