-- ===== src/Mapping.antt =====
-- controllers/mapping.c: the planner's nodes, and the lists that hold them by their scores.
use s3res.Prelude.{
  ℕ, zero, suc, ◌-◌, ◌==◌, ◌&&◌, Bool, true, false, Option, none, some, List, [], ◌∷◌,
  if◌then◌else◌,
}
pub mod Count
pub mod Grid
pub mod Order
mod Tests
use s3res.Prelude.Int.{ℤ}

-- What the controllers use of a double: `sqrt` takes the integer that the C code converts, and
-- `truncate` is the conversion to int.
pub record Doubles (Score : Type 0) : Type 0 where
  pub origin : Score
  pub plus : Score → Score → Score
  pub lt : Score → Score → Bool
  pub sqrt : ℕ → Score
  pub minus : Score → Score → Score
  pub times : Score → Score → Score
  pub divide : Score → Score → Score
  pub of_nat : ℕ → Score
  pub truncate : Score → ℤ

-- `struct node_t *`. No field of a node changes while another structure points to it, so a pointer
-- stands for what it points to: the coordinates, the `g_score` and the `back_link`.
pub data Node (Score : Type 0) : Type 0 where
  no_node : Node Score
  node : (x y : ℕ) (g_score : Score) (back_link : Node Score) → Node Score

-- `struct l_list_t *`. The empty list is a cell without a node, and NULL is no list at all.
pub data LList (Score : Type 0) : Type 0 where
  no_list : LList Score
  cell : (head : Node Score) (sort_val : Score) (tail : LList Score) → LList Score

module _ {Score : Type 0} where
  abbrev pub is_node : Node Score → Bool
  is_node no_node = false
  is_node (node _ _ _ _) = true

  unfoldable pub node_equals : Node Score → Node Score → Bool
  node_equals no_node _ = false
  node_equals (node _ _ _ _) no_node = false
  node_equals (node x y _ _) (node x' y' _ _) = (x == x') && (y == y')

  unfoldable pub remove_node : LList Score → Node Score → LList Score
  remove_node no_list n = no_list
  remove_node (cell no_node s tail) n = cell no_node s tail
  remove_node (cell (node x y g b) s tail) n =
      let rest = remove_node tail n in
      if node_equals (node x y g b) n then tail else cell (node x y g b) s rest

  unfoldable pub find_node : LList Score → Node Score → Node Score
  find_node no_list n = no_node
  find_node (cell no_node _ _) n = no_node
  find_node (cell (node x y g b) _ tail) n =
      let rest = find_node tail n in if node_equals n (node x y g b) then node x y g b else rest

  unfoldable pub peek : LList Score → ℕ → Node Score
  peek no_list _ = no_node
  peek (cell no_node _ _) _ = no_node
  peek (cell (node x y g b) _ _) zero = node x y g b
  peek (cell (node _ _ _ _) _ tail) (suc num) = peek tail num

  -- `while ((n = pop(&list)) != NULL) state = body(n, state);`
  unfoldable pub each_popped :
      {State : Type 0} → LList Score → (Node Score → State → State) → State → State
  each_popped no_list body state = state
  each_popped (cell no_node _ _) body state = state
  each_popped (cell (node x y g b) _ tail) body state =
      each_popped tail body (body (node x y g b) state)

module _ {Score : Type 0} (d : Doubles Score) where
  unfoldable pub new_list : LList Score
  new_list = cell no_node d.origin no_list

  unfoldable pub new_node : ℕ → ℕ → Score → Node Score
  new_node x y g_score = node x y g_score no_node

  -- `none` where the C code would follow a null pointer. A tail that is NULL becomes an empty list,
  -- whose one cell takes the node.
  unfoldable pub add_node : LList Score → Node Score → Score → Option (LList Score)
  add_node no_list n v = none
  add_node (cell no_node s tail) n v = some (cell n v tail)
  add_node (cell (node x y g b) s no_list) n v =
      if d.lt v s
      then some (cell n v (cell (node x y g b) s no_list))
      else some (cell (node x y g b) s (cell n v no_list))
  add_node (cell (node x y g b) s (cell h t tail)) n v =
      let rest = add_node (cell h t tail) n v in
      if d.lt v s
      then some (cell n v (cell (node x y g b) s (cell h t tail)))
      else elim rest [ none ↦ none | some l ↦ some (cell (node x y g b) s l) ]

  unfoldable pub push : LList Score → Node Score → LList Score
  push list n = cell n d.origin list

  -- never an empty list: what `pop` leaves behind
  abbrev pub or_new : LList Score → LList Score
  or_new no_list = new_list
  or_new (cell h s tail) = cell h s tail

  -- `none` where the C code would follow a null pointer
  unfoldable pub pop : LList Score → Option (Node Score × LList Score)
  pop no_list = none
  pop (cell h s tail) = some (h, or_new tail)

  -- What is left once `pop` has returned NULL; `none` on NULL. Behind the last cell `pop` leaves a new
  -- list.
  unfoldable pub erase_list : LList Score → Option (LList Score)
  erase_list no_list = none
  erase_list (cell no_node _ tail) = some (or_new tail)
  erase_list (cell (node _ _ _ _) _ no_list) = some new_list
  erase_list (cell (node _ _ _ _) _ (cell h s tail)) = erase_list (cell h s tail)
