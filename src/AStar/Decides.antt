-- ===== src/AStar/Decides.antt =====
-- The search ends, and tells whether the goal can be reached.
use s3res.Prelude.{ℕ, zero, suc, ◌<◌, ◌==◌, ◌&&◌, ◌≡◌, refl, sym, ap, subst, arith, one, one-bound}
use s3res.Mapping.{Doubles, no_node, node, LList, no_list, cell, new_list, new_node, pop}
use s3res.Mapping.Count.{stands, Added, add_node-Added}
use s3res.AStar.{Point, ObstacleMap}
use s3res.AStar.Search.{search, search_from, rounds, find_goal, est_distance_g}
use s3res.AStar.Neighbors.{Interior}
use s3res.AStar.Unclosed.{unclosed, unclosed-bound}
use s3res.AStar.Round.{Walled, Inv, Right, examine-Right}
use s3res.AStar.Visit.{Trail}

module _ {Score : Type 0} (d : Doubles Score) (map : ObstacleMap) (pose goal : Point) where
  search-Right :
      (fuel : ℕ) (open_set closed_set : LList Score)
      → Walled map
      → Interior pose.x pose.y
      → Inv d map pose goal open_set closed_set
      → unclosed closed_set < fuel
      → Right d map pose goal (search d map pose goal fuel open_set closed_set)
  unfolding search pop
  search-Right zero open_set closed_set walled inside h enough = absurd (omega arith)
  search-Right (suc fuel) no_list closed_set walled inside h enough = absurd h.open_real
  search-Right (suc fuel) (cell current s tail) closed_set walled inside h enough =
      examine-Right d map pose goal current s tail closed_set (search d map pose goal fuel) walled
        inside h
        (λ open' closed' inv fewer. search-Right fuel open' closed' walled inside inv (omega arith))

  -- The search begins with the start alone in the open set.
  record Begun : Type 0 where
    open_set : LList Score
    computes : find_goal d map pose goal ≡ search d map pose goal rounds open_set (new_list d)
    inv : Inv d map pose goal open_set (new_list d)

  find_goal-Begun : Begun
  unfolding find_goal new_list new_node
  find_goal-Begun = record {
    open_set = begun.result;
    computes = ap (search_from d map pose goal) begun.computes;
    inv = record {
      open_real = begun.real;
      open_tidy = begun.tidy;
      closed_real = tt;
      closed_tidy = tt;
      trails = begun.every (refl, refl) tt;
      apart = λ x y.
          let alone = one-bound (stands (node pose.x pose.y d.origin no_node) x y) in
          omega (arith, begun.counts x y);
      start = omega (arith, begun.counts pose.x pose.y, self);
      closed_steps = λ x y a c there e. absurd (omega arith);
      goal_open = refl;
    };
  }
    where
      first_score : Score
      first_score = est_distance_g d map pose goal pose.x pose.y

      begun :
          Added d (Trail map pose) (new_list d) (node pose.x pose.y d.origin no_node) first_score
      begun =
          add_node-Added d (Trail map pose) (new_list d) pose.x pose.y d.origin no_node first_score
            tt tt

      self : one (pose.x == pose.x && (pose.y == pose.y)) ≡ 1
      self = ground arith

  -- From a place that is not at the border of a map whose border has no free place, the search never
  -- reads outside of the map and ends within its rounds. It ends with a node at the goal, whose back
  -- links lead to the start step by step; or with no path, and then no walk of steps leads to the goal;
  -- or by following a null pointer.
  pub find_goal-Right :
      Walled map → Interior pose.x pose.y → Right d map pose goal (find_goal d map pose goal)
  find_goal-Right walled inside =
      let begun = find_goal-Begun in
      subst (Right d map pose goal) (sym begun.computes) (
        search-Right rounds begun.open_set (new_list d) walled inside begun.inv
          (let bound = unclosed-bound (new_list d) in omega arith))
