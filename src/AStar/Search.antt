-- ===== src/AStar/Search.antt =====
-- controllers/a_star.c: the search (`genNeighbors`, `estDistance`, `command`).
use s3res.Prelude.{
  ℕ, zero, suc, ◌+◌, ◌-◌, ◌*◌, ltb, ◌==◌, ◌&&◌, ◌||◌, not, Bool, true, false, Option, none, some,
  for_range, if◌then◌else◌,
}
use s3res.Mapping.{
  Doubles, Node, no_node, node, LList, is_node, node_equals, remove_node, find_node, new_list,
  new_node, add_node, pop, push, erase_list, each_popped,
}
use s3res.AStar.{Point, ObstacleMap, grid_num}

-- A read of `obstacle_map`; `none` outside the array.
unfoldable pub obstacle_at : ObstacleMap → ℕ → ℕ → Option Bool
obstacle_at map x y = if ltb x grid_num && ltb y grid_num then some (map x y) else none

-- Each round but the last closes one more place of the grid.
abbrev pub rounds : ℕ
rounds = grid_num * grid_num + 1

-- What the search comes to. `wild_read`: a read outside of `obstacle_map`; `null_list`: the code
-- follows a null pointer to a list.
pub data Outcome (Score : Type 0) : Type 0 where
  -- the node at the goal
  solved : Node Score → Outcome Score
  unsolved wild_read null_list out_of_fuel : Outcome Score

module _ {Score : Type 0} (d : Doubles Score) (map : ObstacleMap) where
  -- `sqrt(((x_1 - x_2) * (x_1 - x_2)) + ((y_1 - y_2) * (y_1 - y_2)))`
  unfoldable pub est_distance : ℕ → ℕ → ℕ → ℕ → Score
  est_distance x_1 y_1 x_2 y_2 =
      let dx = x_1 - x_2 + (x_2 - x_1) in
      let dy = y_1 - y_2 + (y_2 - y_1) in d.sqrt (dx * dx + dy * dy)

  -- A new node for the place, at the end of the list.
  abbrev pub add_neighbor : ℕ → ℕ → LList Score → Option (LList Score)
  add_neighbor n_x n_y list = add_node d list (new_node d n_x n_y d.origin) d.origin

  -- One round of the loops over `i` and `j`, which here run from 0: the place is (x + i - 1, y + j - 1).
  -- A coordinate below 0 is outside of the array.
  unfoldable pub offer_neighbor : ℕ → ℕ → ℕ → ℕ → LList Score → Option (LList Score)
  offer_neighbor x y i j list =
      let n_x = x + i - 1 in
      let n_y = y + j - 1 in
      if i == 1 && (j == 1)
      then some list
      else if x + i == 0 || (y + j == 0)
      then none
      else elim (obstacle_at map n_x n_y) [
        | none ↦ none
        | some true ↦ some list
        | some false ↦
            if i == 1 || (j == 1) then add_neighbor n_x n_y list else elim (obstacle_at map n_x y) [
              | none ↦ none
              | some false ↦ add_neighbor n_x n_y list
              | some true ↦ elim (obstacle_at map x n_y) [
                | none ↦ none
                | some false ↦ add_neighbor n_x n_y list
                | some true ↦ some list
              ]
            ]
      ]

  -- what follows on a list, if there is one
  abbrev pub on_list :
      (LList Score → Option (LList Score)) → Option (LList Score) → Option (LList Score)
  on_list f none = none
  on_list f (some l) = f l

  -- `none` where the C code would read outside of the map.
  unfoldable pub gen_neighbors : ℕ → ℕ → Option (LList Score)
  gen_neighbors x y =
      for_range 3 0 (λ i list. for_range 3 0 (λ j list. on_list (offer_neighbor x y i j) list) list)
        (some (new_list d))

module _ {Score : Type 0} (d : Doubles Score) (map : ObstacleMap) (pose goal : Point) where
  abbrev pub est_distance_g : ℕ → ℕ → Score
  est_distance_g x y = est_distance d map x y goal.x goal.y

  abbrev pub g_score_of : Node Score → Score
  g_score_of no_node = d.origin
  g_score_of (node _ _ g _) = g

  -- A neighbor of `current`, not in the closed set, and the open set that takes it.
  unfoldable pub reach_neighbor :
      ℕ → ℕ → Score → Node Score → Node Score → LList Score → Option (LList Score)
  reach_neighbor x y g b no_node open_set = some open_set
  reach_neighbor x y g b (node n_x n_y n_g n_b) open_set =
      let tent_g_score = d.plus g (est_distance d map n_x n_y x y) in
      let neigh_from_open = find_node open_set (node n_x n_y n_g n_b) in
      let reached = node n_x n_y tent_g_score (node x y g b) in
      if not (is_node neigh_from_open) || d.lt tent_g_score (g_score_of neigh_from_open)
      then add_node d (remove_node open_set reached) reached
          (d.plus tent_g_score (est_distance_g n_x n_y))
      else some open_set

  -- One round of the loop over the neighbors.
  unfoldable pub visit_neighbor :
      LList Score
      → ℕ
      → ℕ
      → Score
      → Node Score
      → Node Score
      → Option (LList Score)
      → Option (LList Score)
  visit_neighbor closed_set x y g b neighbor none = none
  visit_neighbor closed_set x y g b neighbor (some open_set) =
      if is_node (find_node closed_set neighbor)
      then some open_set
      else reach_neighbor x y g b neighbor open_set

  -- What the loop does with the node that it has popped; `next` is the loop on the sets it leaves.
  unfoldable pub examine :
      Node Score
      → LList Score
      → LList Score
      → (LList Score → LList Score → Outcome Score)
      → Outcome Score
  examine no_node open_set closed_set next = unsolved
  examine (node x y g b) open_set closed_set next =
      if node_equals (node x y g b) (new_node d goal.x goal.y d.origin)
      then solved (node x y g b)
      else elim (add_node d closed_set (node x y g b) (est_distance_g x y)) [
        | none ↦ null_list
        | some closed' ↦ elim (gen_neighbors d map x y) [
          | none ↦ wild_read
          | some neighbors ↦
              elim (each_popped neighbors (visit_neighbor closed' x y g b) (some open_set)) [
                | none ↦ null_list
                | some open' ↦ next open' closed'
              ]
        ]
      ]

  -- The loop on the open set; it ends when the set is NULL.
  unfoldable pub search : ℕ → LList Score → LList Score → Outcome Score
  search zero open_set closed_set = out_of_fuel
  search (suc fuel) open_set closed_set = elim (pop d open_set) [
    | none ↦ unsolved
    | some (current, rest) ↦ examine current rest closed_set (search fuel)
  ]

  abbrev pub search_from : Option (LList Score) → Outcome Score
  search_from none = null_list
  search_from (some open_set) = search rounds open_set (new_list d)

  -- `command` up to the end of its loop
  unfoldable pub find_goal : Outcome Score
  find_goal =
      search_from
        (add_node d (new_list d) (new_node d pose.x pose.y d.origin) (est_distance_g pose.x pose.y))

  -- The path is pushed from the goal on, so that it begins at the start.
  unfoldable pub extract_path : Node Score → LList Score → LList Score
  extract_path no_node path = path
  extract_path (node x y g b) path = extract_path b (push d path (node x y g b))

  abbrev pub replaced :
      Node Score → LList Score → Option (LList Score) → Outcome Score × LList Score
  replaced n goal_path none = (null_list, goal_path)
  replaced n goal_path (some erased) = (solved n, extract_path n erased)

  -- What follows the search: the old path is erased, and the new one is pushed.
  abbrev pub path_of : Outcome Score → LList Score → Outcome Score × LList Score
  path_of (solved n) goal_path = replaced n goal_path (erase_list d goal_path)
  path_of unsolved goal_path = (unsolved, goal_path)
  path_of wild_read goal_path = (wild_read, goal_path)
  path_of null_list goal_path = (null_list, goal_path)
  path_of out_of_fuel goal_path = (out_of_fuel, goal_path)

  -- How the code ends, and the path of the controller after it.
  unfoldable pub command : LList Score → Outcome Score × LList Score
  command goal_path = path_of find_goal goal_path
