-- ===== src/AStar/Waypoints.antt =====
-- controllers/a_star.c: the way points are sent (`sendWaypoints`).
use s3res.Prelude.{ℕ, Bool, true, false, Option, none, some, ◌≡◌, refl, subst, ap}
use s3res.CommTypes.{TypedPipe}
use s3res.CommTypes.Structs.{WayRes, comm_send_waypoints}
use s3res.Mapping.{Doubles, Node, no_node, node, LList, pop}
use s3res.Mapping.Grid.{degridify}

-- `goal_path`, `current_goal` and `n_current_goal`
pub record Way (Score : Type 0) : Type 0 where
  pub goal_path : LList Score
  pub current_goal : Node Score
  pub n_current_goal : Node Score

module _ {Score : Type 0} (d : Doubles Score) (way_res : TypedPipe) where
  -- `commSendWaypoints(&pipes[way_res_index], 7.0, 7.0, 0.0, 7.0, 7.0, 0.0)`
  abbrev pub send_home : Option (ℕ × WayRes Score)
  send_home =
      let home = d.of_nat 7 in
      comm_send_waypoints d.origin way_res home home (d.of_nat 0) home home (d.of_nat 0)

  -- Both points, if there are two.
  abbrev pub send_goals : Node Score → Node Score → Option (ℕ × WayRes Score)
  send_goals no_node next = send_home
  send_goals (node _ _ _ _) no_node = send_home
  send_goals (node x y _ _) (node n_x n_y _ _) =
      let goal_p = degridify d x y in
      let n_goal_p = degridify d n_x n_y in
      comm_send_waypoints d.origin way_res goal_p.x goal_p.y (d.of_nat 0) n_goal_p.x n_goal_p.y
        (d.of_nat 0)

  -- What is sent, and the state after it; `none` where the code follows a null pointer.
  abbrev pub Sent : Type 0
  Sent = Option (Option (ℕ × WayRes Score) × Way Score)

  -- The second point is taken, after the first.
  abbrev pub take_second : (x y : ℕ) → Score → Node Score → Option (Node Score × LList Score) → Sent
  take_second x y g b none = none
  take_second x y g b (some (next, path)) = some (
    send_goals (node x y g b) next,
    record { goal_path = path; current_goal = node x y g b; n_current_goal = next },
  )

  abbrev pub take_first : Option (Node Score × LList Score) → Sent
  take_first none = none
  take_first (some (no_node, path)) =
      some
        (send_home, record { goal_path = path; current_goal = no_node; n_current_goal = no_node })
  take_first (some (node x y g b, path)) = take_second x y g b (pop d path)

  unfoldable pub send_waypoints : Bool → Way Score → Sent
  send_waypoints true w = take_first (pop d w.goal_path)
  send_waypoints false w = some (send_goals w.current_goal w.n_current_goal, w)

  -- What was sent stands in the state.
  abbrev Repeats : Sent → Type 0
  Repeats none = Unit
  Repeats (some (msg, w)) = send_goals w.current_goal w.n_current_goal ≡ msg

  Repeats-take_second :
      (x y : ℕ) (g : Score) (b : Node Score) (o : Option (Node Score × LList Score))
      → Repeats (take_second x y g b o)
  Repeats-take_second x y g b none = tt
  Repeats-take_second x y g b (some (next, path)) = refl

  Repeats-take_first : (o : Option (Node Score × LList Score)) → Repeats (take_first o)
  Repeats-take_first none = tt
  Repeats-take_first (some (no_node, path)) = refl
  Repeats-take_first (some (node x y g b, path)) = Repeats-take_second x y g b (pop d path)

  -- After a forced send, a request that is not forced is answered with the same way points, and
  -- changes nothing.
  pub send_waypoints-again :
      (w w' : Way Score) (msg : Option (ℕ × WayRes Score))
      → send_waypoints true w ≡ some (msg, w')
      → send_waypoints false w' ≡ some (msg, w')
  unfolding send_waypoints
  send_waypoints-again w w' msg e =
      let repeats = subst Repeats e (Repeats-take_first (pop d w.goal_path)) in
      ap (λ m. some (m, w')) repeats
