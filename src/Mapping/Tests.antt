-- ===== src/Mapping/Tests.antt =====
-- The lists of the planner with natural numbers as scores.
use s3res.Prelude.{ℕ, ◌+◌, ◌-◌, ◌*◌, ◌/◌, ltb, some, OnSome, ◌≡◌, refl, arith}
use s3res.Prelude.Int.{pos}
use s3res.Mapping.{
  Doubles, Node, no_node, node, LList, no_list, cell, add_node, remove_node, node_equals, peek,
}
use s3res.Mapping.Order.{IsOrder, Sorted, add_node-remove_node-Sorted}

abbrev whole : Doubles ℕ
whole = record {
  origin = 0;
  plus = λ a b. a + b;
  lt = ltb;
  sqrt = λ n. n;
  minus = λ a b. a - b;
  times = λ a b. a * b;
  divide = λ a b. a / b;
  of_nat = λ n. n;
  truncate = pos;
}

whole-IsOrder : IsOrder whole
whole-IsOrder = record { asym = λ a b h. ground arith; trans = λ a b c h k. ground arith }

abbrev at : ℕ → ℕ → Node ℕ
at x y = node x y 0 no_node

abbrev three : LList ℕ
three = cell (at 1 1) 2 (cell (at 2 1) 5 (cell (at 3 1) 9 no_list))

-- (3, 1) moves to the front.
moves :
    add_node whole (remove_node three (at 3 1)) (at 3 1) 1
    ≡ some (cell (at 3 1) 1 (cell (at 1 1) 2 (cell (at 2 1) 5 no_list)))
unfolding add_node remove_node node_equals
moves = refl

second : peek three 1 ≡ at 2 1
unfolding peek
second = refl

add_node-remove_node-Sorted_example :
    OnSome (Sorted whole) (add_node whole (remove_node three (at 3 1)) (node 3 1 0 no_node) 1)
add_node-remove_node-Sorted_example =
    add_node-remove_node-Sorted whole whole-IsOrder three (at 3 1) 3 1 0 no_node 1
      ((refl, (refl, tt)), ((refl, tt), (tt, tt)))
