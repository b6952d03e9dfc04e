-- ===== src/AStar/Path.antt =====
-- The path that `command` leaves in `goal_path`.
use s3res.Prelude.{ℕ, true, none, some, ◌≡◌, ◌⊎◌, inl, inr, refl, arith}
use s3res.Mapping.{Doubles, Node, no_node, node, LList, no_list, cell, push, erase_list, new_list}
use s3res.Mapping.Count.{Tidy, Real}
use s3res.AStar.{Point, ObstacleMap}
use s3res.AStar.Search.{
  Outcome, solved, unsolved, wild_read, null_list, out_of_fuel, find_goal, extract_path, path_of,
  command,
}
use s3res.AStar.Neighbors.{may_step, Interior}
use s3res.AStar.Visit.{Trail}
use s3res.AStar.Round.{Walled, Reach, Right}
use s3res.AStar.Decides.{find_goal-Right}

module _ {Score : Type 0} (map : ObstacleMap) where
  -- Step by step the list leads from the place of its first node to the goal.
  abbrev pub Walk : Point → LList Score → Type 0
  Walk goal no_list = ⊥
  Walk goal (cell no_node _ _) = ⊥
  Walk goal (cell (node x y _ _) _ no_list) = ⊥
  Walk goal (cell (node x y _ _) _ (cell no_node _ _)) = (x ≡ goal.x) × (y ≡ goal.y)
  Walk goal (cell (node x y _ _) _ (cell (node a c g b) s tail)) =
      (may_step map x y a c ≡ true) × Walk goal (cell (node a c g b) s tail)

  abbrev pub Begins : Point → LList Score → Type 0
  Begins pose no_list = ⊥
  Begins pose (cell no_node _ _) = ⊥
  Begins pose (cell (node x y _ _) _ _) = (x ≡ pose.x) × (y ≡ pose.y)

module _ {Score : Type 0} (d : Doubles Score) where
  -- What is left of a list once its nodes are popped is one cell without a node.
  pub record Erased (l : LList Score) : Type 0 where
    pub val : Score
    pub computes : erase_list d l ≡ some (cell no_node val no_list)

  pub erase_list-Erased : (l : LList Score) → Tidy l → Real l → Erased l
  unfolding erase_list new_list
  erase_list-Erased no_list t real = absurd real
  erase_list-Erased (cell no_node s no_list) t real = record { val = d.origin; computes = refl }
  erase_list-Erased (cell no_node s (cell _ _ _)) t real = elim t [ ]
  erase_list-Erased (cell (node _ _ _ _) s no_list) t real = record {
    val = d.origin;
    computes = refl;
  }
  erase_list-Erased (cell (node _ _ _ _) s (cell h v tail)) t real =
      let rest = erase_list-Erased (cell h v tail) t tt in
      record { val = rest.val; computes = rest.computes }

  pub erase_list_cases : (l : LList Score) → Tidy l → (erase_list d l ≡ none) ⊎ Erased l
  unfolding erase_list
  erase_list_cases no_list t = inl refl
  erase_list_cases (cell h s tail) t = inr (erase_list-Erased (cell h s tail) t tt)

module _ {Score : Type 0} (d : Doubles Score) (map : ObstacleMap) (pose goal : Point) where
  -- The nodes that the back links lead to are pushed before the node that is there.
  extract_path-Walk :
      (x y : ℕ) (g : Score) (b : Node Score) (path : LList Score)
      → Trail map pose (node x y g b)
      → Walk map goal (cell (node x y g b) d.origin path)
      → Walk map goal (extract_path d map pose goal (node x y g b) path)
        × Begins map pose (extract_path d map pose goal (node x y g b) path)
  unfolding extract_path push
  extract_path-Walk x y g no_node path trail walk = (walk, trail)
  extract_path-Walk x y g (node a c g' b) path trail walk =
      extract_path-Walk a c g' b (cell (node x y g (node a c g' b)) d.origin path) trail.1
        (trail.0, walk)

  -- The new path begins at the start and leads to the goal; when no search ends at the goal, the path
  -- stays as it was.
  abbrev pub Commanded : LList Score → Outcome Score × LList Score → Type 0
  Commanded old (solved n, path) = Walk map goal path × Begins map pose path
  Commanded old (unsolved, path) = (path ≡ old) × (¬ Reach map pose goal.x goal.y)
  Commanded old (null_list, path) = path ≡ old
  Commanded old (wild_read, path) = ⊥
  Commanded old (out_of_fuel, path) = ⊥

  path_of-Commanded :
      (outcome : Outcome Score) (goal_path : LList Score)
      → Tidy goal_path
      → Right d map pose goal outcome
      → Commanded goal_path (path_of d map pose goal outcome goal_path)
  path_of-Commanded (solved no_node) goal_path t h = absurd h.0
  path_of-Commanded (solved (node x y g b)) goal_path t h = elim (erase_list_cases d goal_path t) [
    | inl computes ↦ rw computes refl
    | inr erased ↦
        rw erased.computes
          (extract_path-Walk x y g b (cell no_node erased.val no_list) h.0 (ground (arith, h.1)))
  ]
  path_of-Commanded unsolved goal_path t h = (refl, h)
  path_of-Commanded null_list goal_path t h = refl
  path_of-Commanded wild_read goal_path t h = absurd h
  path_of-Commanded out_of_fuel goal_path t h = absurd h

  -- From a place that is not at the border of a map whose border has no free place, `command` reads
  -- within the map and ends. If its search ends at the goal, the path leads from the start to the goal,
  -- step by step. If it ends without, the path is unchanged and no walk of steps leads to the goal;
  -- the path is also unchanged if the code follows a null pointer.
  pub command-Commanded :
      (goal_path : LList Score)
      → Walled map
      → Interior pose.x pose.y
      → Tidy goal_path
      → Commanded goal_path (command d map pose goal goal_path)
  unfolding command
  command-Commanded goal_path walled inside t =
      path_of-Commanded (find_goal d map pose goal) goal_path t
        (find_goal-Right d map pose goal walled inside)
