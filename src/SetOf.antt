-- ===== src/SetOf.antt =====
-- support/set_of.hpp: `set_of<T>`, a `std::set` with the operations of sets. The elements are the
-- keys of a map without values.
pub mod Membership
use test_assignment.Prelude.{Bool, List, [], ◌∷◌, if◌then◌else◌, not}
use test_assignment.Prelude.Order.{Order}
use test_assignment.Map.{Map, member, insert, keys}

abbrev pub SetOf : Type 0 → Type 0
SetOf T = Map T Unit

module _ {T : Type 0} ⦃o : Order T⦄ where
  -- `contains(v)`
  unfoldable pub contains : T → SetOf T → Bool
  contains v s = member v s

  -- `operator<<`
  unfoldable pub put : T → SetOf T → SetOf T
  put v s = insert v tt s

  -- `set_of(std::vector<T> const &)` on a set that is made so far, `set_of{}` at first
  unfoldable pub put_all : List T → SetOf T → SetOf T
  put_all [] s = s
  put_all (v ∷ vs) s = put_all vs (put v s)

  unfoldable pub from_vector : List T → SetOf T
  from_vector vs = put_all vs []

  -- The loops over the elements of one set, with the set made so far: `operator-=`, `operator&=`,
  -- `operator+=`.
  unfoldable pub minus_loop : SetOf T → SetOf T → SetOf T → SetOf T
  minus_loop [] s v = v
  minus_loop ((item, u) ∷ items) s v =
      minus_loop items s (if member item s then v else insert item tt v)

  unfoldable pub and_loop : SetOf T → SetOf T → SetOf T → SetOf T
  and_loop [] s v = v
  and_loop ((item, u) ∷ items) s v =
      and_loop items s (if member item s then insert item tt v else v)

  unfoldable pub plus_loop : SetOf T → SetOf T → SetOf T
  plus_loop [] v = v
  plus_loop ((item, u) ∷ items) v = plus_loop items (if member item v then v else insert item tt v)

  unfoldable pub minus : SetOf T → SetOf T → SetOf T
  minus l r = minus_loop l r []

  unfoldable pub intersect : SetOf T → SetOf T → SetOf T
  intersect l r = and_loop l r []

  unfoldable pub plus : SetOf T → SetOf T → SetOf T
  plus l r = plus_loop r l

  abbrev pub clear : SetOf T → SetOf T
  clear s = []

  unfoldable pub elements : SetOf T → List T
  elements s = keys s
