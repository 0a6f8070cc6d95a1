-- ===== src/Codec/Frame.antt =====
-- luaEngine/Codec.h: the wire format on its own, and facts about the four bytes of a header.
use lua_engine.Base.{
  ℕ, ◌+◌, ◌*◌, ◌^◌, ◌≤◌, ◌<◌, ◌≡◌, refl, ap, List, [], ◌∷◌, ◌++◌, length, drop, All, arith,
  append_assoc, sym, ◌∙◌,
}
use lua_engine.Codec.Buffer.{be32, be_bytes}

abbrev pub IsByte : ℕ → Type 0
IsByte b = b < 256

-- A message that fits the limit of the receiver.
abbrev pub IsMessage : List ℕ → Type 0
IsMessage msg = length msg ≤ 65536

-- A message behind its length.
abbrev pub frame : List ℕ → List ℕ
frame msg = be_bytes (length msg) ++ msg

abbrev pub frames : List (List ℕ) → List ℕ
frames [] = []
frames (msg ∷ msgs) = frame msg ++ frames msgs

pub frames-append : (xs ys : List (List ℕ)) → frames (xs ++ ys) ≡ frames xs ++ frames ys
frames-append [] ys = refl
frames-append (x ∷ xs) ys =
    ap (λ t. frame x ++ t) (frames-append xs ys)
    ∙ sym (append_assoc (frame x) (frames xs) (frames ys))

pub be32-be_bytes : (w : ℕ) (rest : List ℕ) → w < 2 ^ 32 → be32 (be_bytes w ++ rest) ≡ w
be32-be_bytes w rest h = omega arith

pub be_bytes-be32 :
    (a b c d : ℕ)
    → IsByte a
    → IsByte b
    → IsByte c
    → IsByte d
    → be_bytes (((a * 256 + b) * 256 + c) * 256 + d) ≡ a ∷ b ∷ c ∷ d ∷ []
be_bytes-be32 a b c d ha hb hc hd = ground arith

pub be_bytes-IsByte : (w : ℕ) → All IsByte (be_bytes w)
be_bytes-IsByte w = omega arith

-- Four bytes or more begin with the header that they stand for.
pub header_lem : (s : List ℕ) → All IsByte s → 4 ≤ length s → s ≡ be_bytes (be32 s) ++ drop 4 s
header_lem [] h k = absurd (omega arith)
header_lem (a ∷ []) h k = absurd (omega arith)
header_lem (a ∷ b ∷ []) h k = absurd (omega arith)
header_lem (a ∷ b ∷ c ∷ []) h k = absurd (omega arith)
header_lem (a ∷ b ∷ c ∷ d ∷ s) h k =
    ap (λ t. t ++ s) (sym (be_bytes-be32 a b c d h.0 h.1.0 h.1.1.0 h.1.1.1.0))

pub be32-lt : (s : List ℕ) → All IsByte s → be32 s < 2 ^ 32
be32-lt [] h = omega arith
be32-lt (a ∷ []) h = omega arith
be32-lt (a ∷ b ∷ []) h = omega arith
be32-lt (a ∷ b ∷ c ∷ []) h = omega arith
be32-lt (a ∷ b ∷ c ∷ d ∷ s) h = omega arith
