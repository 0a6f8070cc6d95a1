-- ===== src/Lua/Find/Shortcut.antt =====
-- lua515/lstrlib.c: `match` on a pattern of plain characters, and the plain search in its place.
use lua_engine.Base.{
  ℕ, zero, suc, ◌+◌, ◌≤◌, ◌<◌, ◌≡◌, refl, sym, ap, ap₂, ◌∙◌, Bool, true, false, ◌||◌, Option, none,
  some, List, [], ◌∷◌, length, arith, drop, Bool-cases, inl, inr, lt→ltb, ◌==◌, if◌then◌else◌,
  length-drop,
}
use lua_engine.Base.Int.{ℤ}
use lua_engine.Lua.Classes.{Res, ok, ◌>>=◌, Ctype}
use lua_engine.Lua.Pattern.{match}
use lua_engine.Lua.Find.{
  Place, integer, push_captures, no_specials, search_loop, find_pattern, find_start, push_plain,
  push_place, str_find_aux,
}
use lua_engine.Lua.Find.Bounds.{find_start-le}
use lua_engine.Lua.Find.Plain.{starts, shift, shift-shift, first_at, lmemfind-first_at}
use lua_engine.Lua.Find.Literal.{
  AllPlain, plain_ne, RestAt, RestAt-tail, le_false, not_special, eqb_sym, next_byte,
  match_body-item, single_at-cons, single_at-nil, match_body-nil, item-plain,
}

or_true : (b : Bool) → (b || true) ≡ true
or_true true = refl
or_true false = refl

plain_specials : (cs : List ℕ) → AllPlain cs → no_specials cs ≡ true
plain_specials [] h = refl
plain_specials (c ∷ cs) h =
    rw (plain_ne c 0 h.0 refl, not_special c h.0, plain_specials cs h.1) refl

module _ (t : Ctype) (src pat : List ℕ) where
  match-starts :
      (n : ℕ) (ps xs : List ℕ) (p s : ℕ)
      → RestAt pat p ps
      → RestAt src s xs
      → AllPlain ps
      → length ps < n
      → match t src pat n s p [] ≡ ok ((if starts xs ps then some (s + length ps) else none), [])
  unfolding match
  match-starts zero ps xs p s h hs k fuel = absurd (omega arith)
  match-starts (suc n) [] xs p s h hs k fuel =
      match_body-nil t src pat (match t src pat n) s p [] h
      ∙ ap (λ e. ok (some e, [])) (omega arith)
  match-starts (suc n) (c ∷ cs) [] p s h hs k fuel =
      match_body-item t src pat (match t src pat n) s p c cs [] h k.0
      ∙ item-plain t src pat (match t src pat n) s p c cs [] false h k
          (single_at-nil t src pat (match t src pat n) s p (p + 1) hs)
  match-starts (suc n) (c ∷ cs) (x ∷ xs) p s h hs k fuel =
      match_body-item t src pat (match t src pat n) s p c cs [] h k.0
      ∙ item-plain t src pat (match t src pat n) s p c cs [] (c == x) h k
          (single_at-cons t src pat (match t src pat n) s p x c xs cs hs h k.0)
      ∙ elim (Bool-cases (c == x)) [
        | inl e ↦
            rw (e, sym (eqb_sym c x) ∙ e)
              (match-starts n cs xs (p + 1) (s + 1) (RestAt-tail pat p c cs h)
                  (RestAt-tail src s x xs hs) k.1 (omega arith)
                ∙ ap (λ e'. ok ((if starts xs cs then some e' else none), [])) (omega arith))
        | inr e ↦ rw (e, sym (eqb_sym c x) ∙ e) refl
      ]

  -- The place of a match that begins where the search found it.
  abbrev place : Option ℕ → Option Place
  place none = none
  place (some i) = some (i, i + length pat, [])

  search_loop-first_at :
      (n : ℕ) (xs : List ℕ) (s1 : ℕ)
      → RestAt src s1 xs
      → AllPlain pat
      → length xs < n
      → search_loop t src pat n false 0 s1 ≡ ok (place (shift s1 (first_at xs pat)))
  unfolding search_loop
  search_loop-first_at zero xs s1 h k fuel = absurd (omega arith)
  search_loop-first_at (suc n) [] s1 h k fuel =
      rw (match-starts (suc (length pat)) pat [] 0 s1 (refl, omega arith) h k (omega arith))
        (elim (Bool-cases (starts [] pat)) [
          | inl e ↦ rw e (ap (λ j. ok (place (some j))) (omega arith))
          | inr e ↦ rw (e, le_false s1 (length src) (omega (arith, h.1))) refl
        ])
  search_loop-first_at (suc n) (x ∷ xs) s1 h k fuel =
      rw (match-starts (suc (length pat)) pat (x ∷ xs) 0 s1 (refl, omega arith) h k (omega arith))
        (elim (Bool-cases (starts (x ∷ xs) pat)) [
          | inl e ↦ rw e (ap (λ j. ok (place (some j))) (omega arith))
          | inr e ↦
              rw (e, lt→ltb s1 (length src) (omega (arith, h.1)))
                (search_loop-first_at n xs (s1 + 1) (RestAt-tail src s1 x xs h) k (omega arith)
                  ∙ ap (λ o. ok (place o)) (sym (shift-shift s1 1 (first_at xs pat))))
        ])

  find_pattern-first_at :
      (init : ℕ)
      → init ≤ length src
      → AllPlain pat
      → find_pattern t src pat init ≡ ok (place (shift init (first_at (drop init src) pat)))
  unfolding find_pattern
  find_pattern-first_at init h k =
      let (c, read, other) = next_byte pat 0 pat (refl, omega arith) k in
      let searched : Bool → Res (Option Place) =
        λ b. search_loop t src pat (suc (length src)) b (if b then 1 else 0) init in
      ap (λ r. r >>= (λ c. searched (c == b'^'))) read
      ∙ ap searched (other b'^' refl (omega arith))
      ∙ (search_loop-first_at (suc (length src)) (drop init src) init
          (refl, omega (arith, length-drop init src)) k (omega (arith, length-drop init src)))

  push_place-push_plain :
      (init : ℕ) (o : Option ℕ)
      → push_place src true (place (shift init o)) ≡ ok (push_plain pat init o)
  unfolding push_place push_captures
  push_place-push_plain init none = refl
  push_place-push_plain init (some j) =
      ap₂ (λ a b. ok (integer a ∷ integer b ∷ [])) (omega arith) (omega arith)

  -- For a pattern of characters that are not special, zeros and closing parentheses excluded, the plain
  -- search that `string.find` makes returns the values that its pattern matcher would return, from
  -- any position and in any subject.
  pub str_find_aux-find_pattern :
      (i : Option ℤ) (explicit : Bool)
      → AllPlain pat
      → str_find_aux t src pat true i explicit
        ≡ (find_pattern t src pat (find_start src i) >>= push_place src true)
  unfolding str_find_aux
  str_find_aux-find_pattern i explicit k =
      let init = find_start src i in
      rw
        (
          plain_specials pat k,
          or_true explicit,
          lmemfind-first_at (drop init src) pat,
          find_pattern-first_at init (find_start-le src i) k,
        )
        (sym (push_place-push_plain init (first_at (drop init src) pat)))
