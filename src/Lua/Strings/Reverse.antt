-- ===== src/Lua/Strings/Reverse.antt =====
-- lua515/lstrlib.c: the loop of `str_reverse`.
use lua_engine.Base.{
  ℕ, zero, suc, ◌≤◌, ◌<◌, ◌≡◌, refl, sym, ap, ◌∙◌, some, arith, List, [], ◌∷◌, ◌++◌, length, take,
  get_elem?, append-nil, append_assoc,
}
use mathlib.Core.List.{reverse, reverse_aux}
use lua_engine.Lua.Strings.{reverse_loop, str_reverse}

element : (s : List ℕ) (l : ℕ) → l < length s → (c : ℕ) × (get_elem? s l ≡ some c)
element [] l h = absurd (omega arith)
element (x ∷ s) zero h = (x, refl)
element (x ∷ s) (suc l) h = element s l (omega arith)

reverse_step :
    (s : List ℕ) (l c : ℕ) (r : List ℕ)
    → get_elem? s l ≡ some c
    → reverse_aux (take (suc l) s) r ≡ c ∷ reverse_aux (take l s) r
reverse_step [] l c r h = cc
reverse_step (x ∷ s) zero c r h = cc
reverse_step (x ∷ s) (suc l) c r h = reverse_step s l c (x ∷ r) h

reverse_loop_lem :
    (s : List ℕ) (l : ℕ) (b : List ℕ) → l ≤ length s → reverse_loop s l b ≡ b ++ reverse (take l s)
unfolding reverse_loop
reverse_loop_lem s zero b h = sym (append-nil b)
reverse_loop_lem s (suc l) b h =
    let (c, e) = element s l (omega arith) in
    rw (reverse_loop, e, reverse_step s l c [] e)
      (reverse_loop_lem s l (b ++ (c ∷ [])) (omega arith)
        ∙ append_assoc b (c ∷ []) (reverse (take l s)))

take-length : (s : List ℕ) → take (length s) s ≡ s
take-length [] = refl
take-length (x ∷ s) = ap (λ t. x ∷ t) (take-length s)

-- `string.reverse` gives the bytes of the string in reverse order.
pub str_reverse-reverse : (s : List ℕ) → str_reverse s ≡ reverse s
unfolding str_reverse
str_reverse-reverse s = reverse_loop_lem s (length s) [] (omega arith) ∙ ap reverse (take-length s)
