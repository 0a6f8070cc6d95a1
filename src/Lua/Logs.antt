-- ===== src/Lua/Logs.antt =====
-- lua515/lobject.c: `luaO_log2`, and the sizes of lua515/lobject.h that are powers of two.
pub mod Ceiling
use lua_engine.Base.{ℕ, zero, suc, ◌+◌, ◌-◌, ◌/◌, ◌^◌, List, [], ◌∷◌, ◌++◌, leb, if◌then◌else◌}

abbrev copies : ℕ → ℕ → List ℕ
copies zero x = []
copies (suc n) x = x ∷ copies n x

-- `log_2`, by its runs of one number.
abbrev pub log_2 : List ℕ
log_2 =
    copies 1 0
    ++ copies 1 1
    ++ copies 2 2
    ++ copies 4 3
    ++ copies 8 4
    ++ copies 16 5
    ++ copies 32 6
    ++ copies 64 7
    ++ copies 128 8

abbrev pub entry : List ℕ → ℕ → ℕ
entry [] i = 0
entry (x ∷ xs) zero = x
entry (x ∷ xs) (suc i) = entry xs i

-- One more than `luaO_log2` gives, for the initial `l` one more than in the source. A round drops eight bits.
unfoldable pub log2_loop : ℕ → ℕ → ℕ → ℕ
log2_loop zero l x = l + entry log_2 x
log2_loop (suc f) l x =
    let rest = log2_loop f (l + 8) (x / 256) in if leb 256 x then rest else l + entry log_2 x

-- `ceillog2`, where `(x)-1` is a number of 32 bits: four rounds.
unfoldable pub ceillog2 : ℕ → ℕ
unfolding log2_loop
ceillog2 x = log2_loop 4 0 (x - 1)

-- The size that `setnodevector` gives to a vector.
unfoldable pub node_count : ℕ → ℕ
unfolding ceillog2
node_count zero = 0
node_count (suc n) = 2 ^ ceillog2 (suc n)
