-- ===== src/Lua/Tables/Refill.antt =====
-- lua515/ltable.c: the loops of `resize` that insert entries again.
use lua_engine.Base.{
  ℕ, zero, suc, ◌+◌, ◌≤◌, ◌<◌, ◌≡◌, refl, sym, ap, ◌∙◌, subst, Bool, true, false, Option, none,
  some, if◌then◌else◌, arith, inl, inr,
}
use lua_engine.Lua.Nodes.Links.{used, used-full}
use lua_engine.Lua.Nodes.Insert.{IsFull}
use lua_engine.Lua.Tables.{LuaTable, in_range, get, set, set_item, reinsert}
use lua_engine.Lua.Tables.Sound.{IndexLaws, IsSound, Changing, changed, must_grow, set-Changing}

-- There is a free node for every entry that needs one.
pub record HasRoom {K V : Type 0} (t : LuaTable K V) (count : ℕ) : Type 0 where
  pub enough : count + used t.hash.node t.hash.size ≤ t.hash.size
  pub own_nodes : 0 < count → t.hash.is_dummy ≡ false

pub HasRoom-IsFull :
    {K V : Type 0} (t : LuaTable K V) (count : ℕ) (equal : K → K → Bool) (h : K → ℕ)
    → HasRoom t (suc count)
    → ¬ IsFull equal h t.hash
HasRoom-IsFull t count equal h room (inl e) =
    let own = room.own_nodes (omega arith) in absurd (grind arith)
HasRoom-IsFull t count equal h room (inr f) =
    absurd (omega (arith, room.enough, used-full t.hash.node t.hash.size f))

-- Bounds are carried over to the same sizes.
same_sizes :
    (u v o : ℕ → ℕ) {a a' s s' : ℕ} → a' ≡ a → s' ≡ s → u s' ≤ o a' + v s' → u s ≤ o a + v s
same_sizes u v o {a' = a'} {s = s} {s'} ea es le =
    subst (λ x. u s ≤ o x + v s) ea (subst (λ x. u x ≤ o a' + v x) es le)

room_left : (u o : ℕ → ℕ) {a a' s s' : ℕ} → a' ≡ a → s' ≡ s → o a + u s ≤ s → o a' + u s' ≤ s'
room_left u o {a = a} {s' = s'} ea es le =
    subst (λ x. o x + u s' ≤ s') (sym ea) (subst (λ x. o a + u x ≤ x) (sym es) le)

module _ {K V : Type 0} (index : K → ℕ) where
  -- How many of the first `n` entries do not belong into an array part of the size.
  abbrev needs_node : Option (K × V) → ℕ → ℕ
  needs_node none size = 0
  needs_node (some (k, v)) size = if in_range index k size then 0 else 1

  unfoldable pub outsiders : (ℕ → Option (K × V)) → ℕ → ℕ → ℕ
  outsiders item size zero = 0
  outsiders item size (suc n) = needs_node (item n) size + outsiders item size n

  pub outsiders-skip :
      (item : ℕ → Option (K × V)) (size n : ℕ)
      → item n ≡ none
      → outsiders item size (suc n) ≡ outsiders item size n
  unfolding outsiders
  outsiders-skip item size n e = rw e (omega arith)

  pub outsiders-entry :
      (item : ℕ → Option (K × V)) (size n : ℕ) (k : K) (v : V)
      → item n ≡ some (k, v)
      → outsiders item size (suc n)
        ≡ (if in_range index k size then 0 else 1) + outsiders item size n
  unfolding outsiders
  outsiders-entry item size n k v e = rw e refl

  module _ (equal : K → K → Bool) where
    -- The value of `x` among the first `n` entries, and else `d`.
    abbrev pub item_or : Option (K × V) → K → Option V → Option V
    item_or none x d = d
    item_or (some (k, v)) x d = if equal k x then some v else d

    unfoldable pub among : (ℕ → Option (K × V)) → ℕ → K → Option V → Option V
    among item zero x d = d
    among item (suc n) x d = among item n x (item_or (item n) x d)

    module _ (home : ℕ → K → ℕ) where
      -- What inserting the first `n` entries gives.
      pub data Refilled (item : ℕ → Option (K × V)) (n : ℕ) (t : LuaTable K V)
          : Option (LuaTable K V) → Type 0 where
        refilled :
            {t' : LuaTable K V}
            → IsSound index equal home t'
            → t'.sizearray ≡ t.sizearray
            → t'.hash.size ≡ t.hash.size
            → t'.hash.is_dummy ≡ t.hash.is_dummy
            → used t'.hash.node t.hash.size
              ≤ outsiders item t.sizearray n + used t.hash.node t.hash.size
            → ((x : K) → get index equal home t' x ≡ among item n x (get index equal home t x))
            → Refilled item n t (some t')

      module _ (number : ℕ → K) (laws : IndexLaws index equal home number)
          (item : ℕ → Option (K × V))
          (proper : (j : ℕ) (k : K) (v : V) → item j ≡ some (k, v) → equal k k ≡ true) where
        -- The first entry is inserted, and then the others.
        Refilled-suc :
            (n : ℕ) (i : Option (K × V)) (t t' : LuaTable K V) (r : Option (LuaTable K V))
            → item n ≡ i
            → t'.sizearray ≡ t.sizearray
            → t'.hash.size ≡ t.hash.size
            → t'.hash.is_dummy ≡ t.hash.is_dummy
            → used t'.hash.node t.hash.size
              ≤ needs_node i t.sizearray + used t.hash.node t.hash.size
            → ((x : K) → get index equal home t' x ≡ item_or i x (get index equal home t x))
            → Refilled item n t' r
            → Refilled item (suc n) t r
        unfolding outsiders among
        Refilled-suc n i t t' (some t'') e array size dummy few values
              (refilled sound array' size' dummy' few' values') =
            refilled sound (array' ∙ array) (size' ∙ size) (dummy' ∙ dummy)
              (omega (
                arith,
                same_sizes (λ m. used t''.hash.node m) (λ m. used t'.hash.node m)
                    (λ a. outsiders item a n) array size few',
                ap (λ i'. needs_node i' t.sizearray) e,
              ))
              (λ x. values' x ∙ ap (among item n x) (values x) ∙ rw e refl)
        Refilled-suc n i t t' none e array size dummy few values none_filled = elim none_filled [ ]

        module _ (n : ℕ) (t : LuaTable K V) (sound : IsSound index equal home t)
            (room : HasRoom t (outsiders item t.sizearray (suc n)))
            (rest : (t' : LuaTable K V)
              → IsSound index equal home t'
              → HasRoom t' (outsiders item t'.sizearray n)
              → Refilled item n t' (reinsert index equal home item n t')) where
          Changing-Refilled :
              (k : K) (v : V) (r : Option (LuaTable K V))
              → item n ≡ some (k, v)
              → Changing index equal home t k (some v) r
              → Refilled item
                  (suc n)
                  t
                  (elim r [ none ↦ none | some t' ↦ reinsert index equal home item n t' ])
          unfolding outsiders
          Changing-Refilled k v none e (must_grow out new no_place) = absurd (
              HasRoom-IsFull t (outsiders item t.sizearray n) equal (home t.hash.size)
                (subst (HasRoom t) (rw (e, out) (omega arith)) room) no_place)
          Changing-Refilled k v (some t') e (changed sound' array size dummy few values) =
              Refilled-suc n (some (k, v)) t t' _ e array size dummy few values (
                rest t' sound' (record {
                  enough =
                      room_left (λ m. used t'.hash.node m) (λ a. outsiders item a n) array size
                        (omega (arith, few, room.enough, ap (λ i. needs_node i t.sizearray) e));
                  own_nodes = λ pos.
                      dummy
                      ∙ room.own_nodes (omega (arith, pos, ap (λ a. outsiders item a n) array));
                }))

          item-Refilled :
              (i : Option (K × V))
              → item n ≡ i
              → Refilled item (suc n) t (elim (set_item index equal home t i) [
                | none ↦ none
                | some t' ↦ reinsert index equal home item n t'
              ])
          unfolding set_item outsiders
          item-Refilled none e =
              Refilled-suc n none t t _ e refl refl refl (omega arith) (λ x. refl)
                (rest t sound (subst (HasRoom t) (rw e (omega arith)) room))
          item-Refilled (some (k, v)) e =
              Changing-Refilled k v (set index equal home t k (some v)) e
                (set-Changing index equal home number laws t k (some v) (proper n k v e) sound)

        pub reinsert-Refilled :
            (n : ℕ) (t : LuaTable K V)
            → IsSound index equal home t
            → HasRoom t (outsiders item t.sizearray n)
            → Refilled item n t (reinsert index equal home item n t)
        unfolding reinsert among
        reinsert-Refilled zero t sound room =
            refilled sound refl refl refl (omega arith) (λ x. refl)
        reinsert-Refilled (suc n) t sound room =
            item-Refilled n t sound room (reinsert-Refilled n) (item n) refl
