-- ===== src/Lua/Strings/Slices.antt =====
-- lua515/lstrlib.c: `str_sub` and `str_byte` against the positions of a string.
use lua_engine.Base.{
  ℕ, zero, suc, ◌+◌, ◌-◌, ◌%◌, ◌^◌, ◌≤◌, ◌<◌, ◌≡◌, inl, inr, refl, sym, ap, ap₂, ◌∙◌, ltb, leb,
  if◌then◌else◌, Option, none, some, true, false, arith, List, [], ◌∷◌, ◌++◌, length, take, drop,
  get_elem?, Bool-cases, leb→le, leb-false, ltb→lt, lt→ltb, ltb-false, length-drop,
  take-append-drop,
}
use lua_engine.Base.Int.{ℤ, pos, negsuc, pos_part, neg_part, signed32}
use lua_engine.Lua.Strings.{posrelat, str_sub, push_bytes, check_stack, str_byte}

push : Option ℕ → List ℕ → List ℕ
push none rest = []
push (some c) rest = c ∷ rest

take-drop :
    (s : List ℕ) (i n : ℕ)
    → take (suc n) (drop i s) ≡ push (get_elem? s i) (take n (drop (suc i) s))
unfolding push
take-drop [] zero n = refl
take-drop [] (suc i) n = refl
take-drop (x ∷ s) zero n = refl
take-drop (x ∷ s) (suc i) n = take-drop s i n

push_elim : (o : Option ℕ) (rest : List ℕ) → elim o [ none ↦ [] | some c ↦ c ∷ rest ] ≡ push o rest
unfolding push
push_elim none rest = refl
push_elim (some c) rest = refl

push_bytes_lem : (s : List ℕ) (i n : ℕ) → push_bytes s i n ≡ take n (drop i s)
unfolding push_bytes
push_bytes_lem s i zero = refl
push_bytes_lem s i (suc n) =
    push_elim (get_elem? s i) (push_bytes s (suc i) n)
    ∙ ap (push (get_elem? s i)) (push_bytes_lem s (suc i) n)
    ∙ sym (take-drop s i n)

slice_lem :
    (s : List ℕ) (a b : ℕ)
    → (if leb a b then take ((b - a) + 1) (drop (a - 1) s) else [])
      ≡ take (b + 1 - a) (drop (a - 1) s)
slice_lem s a b = elim (Bool-cases (leb a b)) [
  | inl e ↦
      let le = leb→le a b e in let same : (b - a) + 1 ≡ b + 1 - a = omega arith in rw (e, same) refl
  | inr e ↦
      let gt = leb-false a b e in
      let none_left : b + 1 - a ≡ 0 = omega arith in rw (e, none_left) refl
]

-- The first and the last position of a slice, cut to the string.
abbrev pub first : ℤ → ℕ → ℕ
first i l = if ltb (posrelat i l) 1 then 1 else posrelat i l

abbrev pub last : ℤ → ℕ → ℕ
last j l = if ltb l (posrelat j l) then l else posrelat j l

str_sub_lem :
    (s : List ℕ) (i : ℤ) (j : ℤ)
    → str_sub s i (some j)
      ≡ take (last j (length s) + 1 - first i (length s)) (drop (first i (length s) - 1) s)
unfolding str_sub
str_sub_lem s i j = slice_lem s (first i (length s)) (last j (length s))

-- What `str_byte` computes from the two positions that it has cut to the string.
abbrev range : ℕ → List ℕ → ℕ → ℕ → ℤ → Option (List ℕ)
range top s a b n =
    if ltb b a
    then some []
    else (if leb (a + pos_part n) (b + neg_part n)
        then none
        else if check_stack top (pos_part n)
        then some (push_bytes s (a - 1) (pos_part n))
        else none)

signed-small : (n : ℕ) → n < 2 ^ 31 → signed32 (n % 2 ^ 32) ≡ pos n
signed-small n h = let same : n % 2 ^ 32 ≡ n = omega arith in rw (same, lt→ltb n (2 ^ 31) h) refl

-- A count that fits an `int` is no overflow, and there is room for it.
range_pos :
    (top : ℕ) (s : List ℕ) (a b : ℕ)
    → a ≤ b
    → top + ((b - a) + 1) ≤ 8000
    → range top s a b (pos ((b - a) + 1)) ≡ some (take (b + 1 - a) (drop (a - 1) s))
range_pos top s a b h room =
    let more : ltb b a ≡ false = ground arith in
    let fits : leb (a + ((b - a) + 1)) (b + 0) ≡ false = ground arith in
    let same : (b - a) + 1 ≡ b + 1 - a = omega arith in
    let enough : check_stack top ((b - a) + 1) ≡ true = ground arith in
    rw (more, fits, enough, same) (ap some (push_bytes_lem s (a - 1) (b + 1 - a)))

range_lem :
    (top : ℕ) (s : List ℕ) (a b : ℕ)
    → 1 ≤ a
    → top + b ≤ 8000
    → range top s a b (signed32 (((b - a) + 1) % 2 ^ 32)) ≡ some (take (b + 1 - a) (drop (a - 1) s))
range_lem top s a b low room = elim (Bool-cases (ltb b a)) [
  | inl e ↦
      let lt = ltb→lt b a e in let none_left : b + 1 - a ≡ 0 = omega arith in rw (e, none_left) refl
  | inr e ↦
      let le = ltb-false b a e in
      ap (range top s a b) (signed-small ((b - a) + 1) (omega arith))
      ∙ range_pos top s a b le (omega arith)
]

-- For a string whose bytes fit the 8000 slots of the stack of a C function, together with the arguments of the
-- call, `string.byte` gives no error, and returns the bytes of what
-- `string.sub` gives for the same positions.
pub str_byte-str_sub :
    (top : ℕ) (s : List ℕ) (i j : ℤ)
    → top + length s ≤ 8000
    → str_byte top s (some i) (some j) ≡ some (str_sub s i (some j))
unfolding str_byte
str_byte-str_sub top s i j h =
    let from = posrelat i (length s) in
    let same : (if leb from 0 then 1 else from) ≡ (if ltb from 1 then 1 else from) = ground arith in
    let low : 1 ≤ first i (length s) = ground arith in
    let high : last j (length s) ≤ length s = ground arith in
    rw same (range_lem top s (first i (length s)) (last j (length s)) low (omega arith))
    ∙ ap some (sym (str_sub_lem s i j))

range_full :
    (top : ℕ) (s : List ℕ) (b : ℕ) (n : ℤ) → 1 ≤ b → 8000 < top + b → range top s 1 b n ≡ none
range_full top s b n some_bytes full = ground arith

-- If the bytes do not fit, `string.byte` of the whole string is an error, however the count is cut.
pub str_byte-full :
    (top : ℕ) (s : List ℕ)
    → 1 ≤ length s
    → 8000 < top + length s
    → str_byte top s (some (pos 1)) (some (negsuc 0)) ≡ none
unfolding str_byte
str_byte-full top s some_bytes full =
    let whole : last (negsuc 0) (length s) ≡ length s = ground arith in
    range_full top s (last (negsuc 0) (length s))
      (signed32 (((last (negsuc 0) (length s) - 1) + 1) % 2 ^ 32)) (omega (arith, whole))
      (omega (arith, whole))

take-all : (n : ℕ) (xs : List ℕ) → length xs ≤ n → take n xs ≡ xs
take-all zero [] h = refl
take-all zero (x ∷ xs) h = absurd (omega arith)
take-all (suc n) [] h = refl
take-all (suc n) (x ∷ xs) h = ap (λ ys. x ∷ ys) (take-all n xs (omega arith))

take_cut : (s : List ℕ) (k : ℕ) → take (last (pos k) (length s) + 1 - 1) s ≡ take k s
take_cut s k = elim (Bool-cases (ltb (length s) k)) [
  | inl e ↦
      let same : last (pos k) (length s) + 1 - 1 ≡ length s = ground arith in
      rw same (
        take-all (length s) s (omega arith)
        ∙ sym (take-all k s (omega (arith, ltb→lt (length s) k e))))
  | inr e ↦ let same : last (pos k) (length s) + 1 - 1 ≡ k = ground arith in rw same refl
]

split_at :
    (s : List ℕ) (k : ℕ)
    → take (last (pos k) (length s) + 1 - 1) s
        ++ take
            (last (negsuc 0) (length s) + 1 - first (pos (k + 1)) (length s))
            (drop (first (pos (k + 1)) (length s) - 1) s)
      ≡ s
split_at s k =
    let l = length s in
    let whole : last (negsuc 0) l ≡ l = ground arith in
    let behind : first (pos (k + 1)) l ≡ k + 1 = ground arith in
    let here : k + 1 - 1 ≡ k = omega arith in
    let front : take (last (pos k) l + 1 - 1) s ≡ take k s = take_cut s k in
    rw (front, whole, behind, here)
      (ap (λ ys. take k s ++ ys)
          (take-all (l + 1 - (k + 1)) (drop k s) (omega (arith, length-drop k s)))
        ∙ take-append-drop k s)

-- Cut behind any byte, the two slices of a string put together are the string.
pub str_sub_split :
    (s : List ℕ) (k : ℕ) → str_sub s (pos 1) (some (pos k)) ++ str_sub s (pos (k + 1)) none ≡ s
unfolding str_sub
str_sub_split s k =
    ap₂ (λ (xs : List ℕ) ys. xs ++ ys) (str_sub_lem s (pos 1) (pos k))
      (str_sub_lem s (pos (k + 1)) (negsuc 0))
    ∙ split_at s k

-- A negative position counts from the end: within the string, -n is the position `length s + 1 - n`.
pub str_sub_negative :
    (s : List ℕ) (n m : ℕ)
    → n < length s
    → m < length s
    → str_sub s (negsuc n) (some (negsuc m))
      ≡ str_sub s (pos (length s - n)) (some (pos (length s - m)))
unfolding str_sub
str_sub_negative s n m h k =
    let a : (length s + 1) - suc n ≡ length s - n = omega arith in
    let b : (length s + 1) - suc m ≡ length s - m = omega arith in rw (a, b) refl
