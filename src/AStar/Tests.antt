-- ===== src/AStar/Tests.antt =====
-- The planner on small maps, with natural numbers for the doubles.
use s3res.Prelude.{
  ℕ, zero, suc, ◌+◌, ◌-◌, ◌*◌, ◌/◌, ltb, ◌==◌, ◌&&◌, ◌||◌, not, Bool, true, false, Option, some,
  if◌then◌else◌, ◌≡◌, refl, arith, replicate, [], ◌∷◌, for_range,
}
use s3res.Prelude.Int.{ℤ, pos}
use s3res.Mapping.{
  Doubles, Node, no_node, node, LList, no_list, cell, new_list, new_node, add_node, node_equals,
  find_node, remove_node, pop, each_popped,
}
use s3res.AStar.{Point, ObstacleMap}
use s3res.AStar.Search.{
  solved, null_list, est_distance, obstacle_at, offer_neighbor, gen_neighbors, reach_neighbor,
  visit_neighbor, examine, search, find_goal, command,
}
use s3res.AStar.Neighbors.{IsNeighborList, gen_neighbors-IsNeighborList}
use s3res.AStar.Round.{Walled}
use s3res.AStar.Path.{Commanded, command-Commanded}
use s3res.AStar.Waypoints.{Way, send_goals, send_waypoints, send_waypoints-again}
use s3res.AStar.Loop.{Planner, Round}
use s3res.AStar.Safe.{Kept, Safe}
use s3res.Sys.{got}
use s3res.CommTypes.{TypedPipe, way_res, map_update, comm_ack}
use s3res.CommTypes.Structs.{WayRes}
use s3res.CommTypes.MapUpdate.{MapUpdate, comm_recv_map_update}

-- the greatest root that is at most k + fuel
abbrev root : ℕ → ℕ → ℕ → ℕ
root zero k n = k
root (suc fuel) k n =
    let rest = root fuel (k + 1) n in if ltb n ((k + 1) * (k + 1)) then k else rest

-- Tenths.
abbrev tenths : Doubles ℕ
tenths = record {
  origin = 0;
  plus = λ a b. a + b;
  lt = ltb;
  sqrt = λ n. root 100 0 (n * 100);
  minus = λ a b. a - b;
  times = λ a b. a * b / 10;
  divide = λ a b. a * 10 / b;
  of_nat = λ n. n * 10;
  truncate = λ a. pos (a / 10);
}

abbrev at : ℕ → ℕ → ℕ → ℕ → Bool
at x y a b = x == a && (y == b)

-- Four free places: (1, 1), (1, 2), (1, 3) and (2, 2).
abbrev four_free : ObstacleMap
four_free x y = not (at x y 1 1 || (at x y 1 2 || (at x y 1 3 || at x y 2 2)))

abbrev place : ℕ → ℕ → Point
place x y = record { x = x; y = y }

-- In the third round the open set holds (1, 1) alone, and a shorter way to it is found: `removeNode`
-- leaves no list for `addNode`.
follows_null : find_goal tenths four_free (place 1 3) (place 7 2) ≡ null_list
unfolding find_goal search examine visit_neighbor reach_neighbor gen_neighbors offer_neighbor
    obstacle_at est_distance new_list new_node add_node node_equals find_node remove_node pop
    each_popped for_range
follows_null = refl

four_free-Walled : Walled four_free
four_free-Walled x y x_in y_in free = ground arith

-- The way back from (1, 1).
abbrev way_back : Node ℕ
way_back = node 1 1 20 (node 1 2 10 (node 1 3 0 no_node))

finds_way : (find_goal tenths four_free (place 1 3) (place 1 1)) ≡ solved way_back
unfolding find_goal search examine visit_neighbor reach_neighbor gen_neighbors offer_neighbor
    obstacle_at est_distance new_list new_node add_node node_equals find_node remove_node pop
    each_popped for_range
finds_way = refl

gen_neighbors-IsNeighborList_example : IsNeighborList tenths four_free 1 2
gen_neighbors-IsNeighborList_example =
    gen_neighbors-IsNeighborList tenths four_free 1 2
      (omega arith, omega arith, omega arith, omega arith)

no_path : LList ℕ
no_path = new_list tenths

no_path-Kept : Kept no_path
unfolding no_path new_list
no_path-Kept = (tt, tt)

command-Commanded_example :
    Commanded tenths four_free
      (place 1 3)
      (place 1 1)
      no_path
      (command tenths four_free (place 1 3) (place 1 1) no_path)
command-Commanded_example =
    command-Commanded tenths four_free (place 1 3) (place 1 1) no_path four_free-Walled
      (omega arith, omega arith, omega arith, omega arith) no_path-Kept.0

-- Two way points are left.
abbrev two_left : Way ℕ
two_left = record {
  goal_path =
      cell (node 1 3 0 no_node) 0
        (cell (node 1 2 10 (node 1 3 0 no_node)) 0 (cell no_node 0 no_list));
  current_goal = no_node;
  n_current_goal = no_node;
}

abbrev way_pipe : TypedPipe
way_pipe = record { type = way_res; fd_in = 0; fd_out = 7 }

abbrev two_sent : Way ℕ
two_sent = record {
  goal_path = cell no_node 0 no_list;
  current_goal = node 1 3 0 no_node;
  n_current_goal = node 1 2 10 (node 1 3 0 no_node);
}

abbrev goals : Option (ℕ × WayRes ℕ)
goals = send_goals tenths way_pipe (node 1 3 0 no_node) (node 1 2 10 (node 1 3 0 no_node))

sends_two : send_waypoints tenths way_pipe true two_left ≡ some (goals, two_sent)
unfolding send_waypoints pop
sends_two = refl

send_waypoints-again_example :
    send_waypoints tenths way_pipe false two_sent ≡ some (goals, two_sent)
send_waypoints-again_example =
    send_waypoints-again tenths way_pipe two_left two_sent goals sends_two

-- A header that puts the robot at (1, 3), with one obstacle at (5, 5).
abbrev a_round : Round
a_round = record {
  update_ready = true;
  header = got (0 ∷ 0 ∷ 0 ∷ 1 ∷ 0 ∷ 0 ∷ 0 ∷ 3 ∷ 0 ∷ 0 ∷ 0 ∷ 1 ∷ []);
  obstacles = got (5 ∷ 5 ∷ []);
  request_ready = true;
  read_ret = pos 4;
  padding = pos 1;
}

abbrev planner : Planner ℕ
planner = record {
  updates = record { type = map_update; fd_in = 5; fd_out = 0 };
  ack = record { type = comm_ack; fd_in = 0; fd_out = 6 };
  way_res = way_pipe;
  obstacle_map = four_free;
  goal = place 1 1;
  pose = place 1 1;
  way = two_left;
  received = record {
    pose_x = 0;
    pose_y = 0;
    obs_count = 0;
    obs_x = replicate 2042 0;
    obs_y = replicate 2042 0;
  };
  request_all = true;
  ready_to_send = false;
  insert_sdc = false;
  insert_cfe = false;
  fake_hash = pos 42;
}

abbrev update : ℤ × MapUpdate
update = comm_recv_map_update a_round.header a_round.obstacles planner.updates planner.received
