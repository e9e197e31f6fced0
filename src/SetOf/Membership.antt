-- ===== src/SetOf/Membership.antt =====
-- support/set_of.hpp: what the operations of sets contain.
use test_assignment.Prelude.{
  Bool, true, false, ◌&&◌, ◌||◌, not, List, [], ◌∷◌, ◌≡◌, refl, ap, Ordering, if◌then◌else◌, arith,
}
use test_assignment.Prelude.Order.{Order}
use test_assignment.Map.{lookup, member, insert}
use test_assignment.Map.Lookup.{lookup-insert}
use test_assignment.SetOf.{
  SetOf, contains, put, put_all, from_vector, minus_loop, and_loop, plus_loop, minus, intersect,
  plus,
}

module _ {T : Type 0} ⦃o : Order T⦄ where
  abbrev pub equal_keys : T → T → Bool
  equal_keys x y = elim (o.cmp x y) [ Ordering.eq ↦ true | _ ↦ false ]

  member-nil : (x : T) → member {V = Unit} x [] ≡ false
  unfolding member lookup
  member-nil x = refl

  member-cons :
      (x y : T) (u : Unit) (s : SetOf T) → member x ((y, u) ∷ s) ≡ (equal_keys x y || member x s)
  unfolding member lookup
  member-cons x y u s = ground arith

  member-insert :
      (x y : T) (s : SetOf T) → member x (insert y tt s) ≡ (equal_keys x y || member x s)
  unfolding member
  member-insert x y s = ground (arith, lookup-insert y x tt s)

  -- Equal keys are in the same sets.
  member-equal : (x y : T) (s : SetOf T) → equal_keys x y ≡ true → member x s ≡ member y s
  member-equal x y s h = ap (λ t. member t s) (o.eq_of x y (ground arith))

  member-minus_loop :
      (x : T) (items s v : SetOf T)
      → member x (minus_loop items s v) ≡ (member x v || (member x items && not (member x s)))
  unfolding minus_loop
  member-minus_loop x [] s v = ground (arith, member-nil x)
  member-minus_loop x ((y, u) ∷ items) s v = ground (
    arith,
    member-minus_loop x items s (if member y s then v else insert y tt v),
    member-cons x y u items,
    member-insert x y v,
    member-equal x y s,
  )

  member-and_loop :
      (x : T) (items s v : SetOf T)
      → member x (and_loop items s v) ≡ (member x v || (member x items && member x s))
  unfolding and_loop
  member-and_loop x [] s v = ground (arith, member-nil x)
  member-and_loop x ((y, u) ∷ items) s v = ground (
    arith,
    member-and_loop x items s (if member y s then insert y tt v else v),
    member-cons x y u items,
    member-insert x y v,
    member-equal x y s,
  )

  member-plus_loop :
      (x : T) (items v : SetOf T) → member x (plus_loop items v) ≡ (member x v || member x items)
  unfolding plus_loop
  member-plus_loop x [] v = ground (arith, member-nil x)
  member-plus_loop x ((y, u) ∷ items) v = ground (
    arith,
    member-plus_loop x items (if member y v then v else insert y tt v),
    member-cons x y u items,
    member-insert x y v,
    member-equal x y v,
  )

  unfoldable pub in_vector : T → List T → Bool
  in_vector x [] = false
  in_vector x (y ∷ ys) = equal_keys x y || in_vector x ys

  member-put_all :
      (x : T) (vs : List T) (s : SetOf T) → member x (put_all vs s) ≡ (member x s || in_vector x vs)
  unfolding put_all put in_vector
  member-put_all x [] s = ground arith
  member-put_all x (y ∷ vs) s =
      ground (arith, member-put_all x vs (insert y tt s), member-insert x y s)

  -- A difference, a sum and an intersection of two sets contain what the first has and the second
  -- has not, what one of them has, and what both have; a set that is made of a vector contains what
  -- is in the vector.
  pub contains_lem :
      (x : T) (l r : SetOf T) (vs : List T)
      → (contains x (minus l r) ≡ (contains x l && not (contains x r)))
        × (contains x (plus l r) ≡ (contains x l || contains x r))
        × (contains x (intersect l r) ≡ (contains x l && contains x r))
        × (contains x (from_vector vs) ≡ in_vector x vs)
  unfolding contains minus plus intersect from_vector
  contains_lem x l r vs = (
    ground (arith, member-minus_loop x l r [], member-nil x),
    member-plus_loop x r l,
    ground (arith, member-and_loop x l r [], member-nil x),
    ground (arith, member-put_all x vs [], member-nil x),
  )
