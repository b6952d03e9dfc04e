-- ===== src/AStar/Loop.antt =====
-- controllers/a_star.c: the controller's loop (`setPipeIndexes`, `enterLoop`).
use s3res.Prelude.{
  ℕ, zero, suc, ◌+◌, ltb, ◌==◌, ◌&&◌, ◌||◌, Bool, true, false, Option, none, some, List, [], ◌∷◌,
  ◌++◌, get_or, for_range, if◌then◌else◌,
}
use s3res.Prelude.Int.{ℤ, pos, negsuc, ◌+ℤ◌, ltz}
use s3res.Sys.{ReadResult}
use s3res.CommTypes.{
  CommMessage, TypedPipe, no_typed_pipe, comm_error, way_req, way_res, mov_cmd, range_pose_data,
  map_update, comm_ack, msg_buffer,
}
use s3res.CommTypes.MapUpdate.{MapUpdate, comm_recv_map_update, rounds}
use s3res.CommTypes.Structs.{WayRes, CommAck, comm_send_ack}
use s3res.Mapping.{Doubles, LList}
use s3res.AStar.{Point, ObstacleMap, grid_num}
use s3res.AStar.Search.{Outcome, solved, unsolved, wild_read, null_list, out_of_fuel, command}
use s3res.AStar.Waypoints.{Way, send_waypoints}

-- `updates_index`, `ack_index`, `way_req_index` and `way_res_index`
pub record Indexes : Type 0 where
  pub updates : ℕ
  pub ack : ℕ
  pub way_req : ℕ
  pub way_res : ℕ

-- PIPE_COUNT
abbrev pub astar_pipe_count : ℕ
astar_pipe_count = 4

-- One case of the switch in `setPipeIndexes`.
unfoldable pub index_of_type : CommMessage → ℕ → Indexes → Indexes
index_of_type map_update i indexes = record indexes { updates = i }
index_of_type comm_ack i indexes = record indexes { ack = i }
index_of_type way_res i indexes = record indexes { way_res = i }
index_of_type way_req i indexes = record indexes { way_req = i }
index_of_type comm_error i indexes = indexes
index_of_type mov_cmd i indexes = indexes
index_of_type range_pose_data i indexes = indexes
index_of_type msg_buffer i indexes = indexes

unfoldable pub set_pipe_indexes : List TypedPipe → Indexes → Indexes
set_pipe_indexes pipes =
    for_range astar_pipe_count 0
      (λ i indexes. index_of_type (get_or pipes i no_typed_pipe).type i indexes)

-- The state of the controller, with its pipes where the indexes find them. `received` is the map
-- update that the loop keeps.
pub record Planner (Score : Type 0) : Type 0 where
  pub updates : TypedPipe
  pub ack : TypedPipe
  pub way_res : TypedPipe
  pub obstacle_map : ObstacleMap
  pub goal : Point
  pub pose : Point
  pub way : Way Score
  pub received : MapUpdate
  pub request_all : Bool
  pub ready_to_send : Bool
  pub insert_sdc : Bool
  pub insert_cfe : Bool
  pub fake_hash : ℤ

-- What one round of the loop gets: whether each descriptor is ready; the two reads of a map update; and
-- the answer of the read of a request, with its `padding`.
pub record Round : Type 0 where
  pub update_ready : Bool
  pub header : ReadResult
  pub obstacles : ReadResult
  pub request_ready : Bool
  pub read_ret : ℤ
  pub padding : ℤ

-- What the controller writes.
pub data Call (Score : Type 0) : Type 0 where
  way_points : Option (ℕ × WayRes Score) → Call Score
  acks : Option (ℕ × CommAck) → Call Score

-- `wild_access`: outside of `obstacle_map`; `null_access`: a null pointer; `no_end`: a search that
-- does not end, or the endless loop of an injected control-flow error.
pub data Fate (Score : Type 0) : Type 0 where
  lives : Planner Score → List (Call Score) → Fate Score
  wild_access null_access no_end : Fate Score

-- `obstacle_map[obs_x[index]][obs_y[index]] = true;`, for all obstacles; `none` outside of the map.
unfoldable pub mark_obstacles : MapUpdate → ℕ → ℕ → ObstacleMap → Option ObstacleMap
mark_obstacles msg zero index map = some map
mark_obstacles msg (suc n) index map =
    let x = get_or msg.obs_x index 0 in
    let y = get_or msg.obs_y index 0 in
    let rest = mark_obstacles msg n (index + 1) (λ a b. a == x && (b == y) || map a b) in
    if ltb x grid_num && ltb y grid_num then rest else none

module _ {Score : Type 0} (d : Doubles Score) where
  -- `command();` if a new obstacle has arrived
  abbrev pub plan : Planner Score → Outcome Score × LList Score → Fate Score
  plan p (solved _, path) =
      lives (record p { way = record p.way { goal_path = path }; ready_to_send = true }) []
  plan p (unsolved, path) =
      lives (record p { way = record p.way { goal_path = path }; ready_to_send = true }) []
  plan p (wild_read, path) = wild_access
  plan p (null_list, path) = null_access
  plan p (out_of_fuel, path) = no_end

  -- The acknowledgement, which asks for all obstacles once.
  unfoldable pub acknowledge : Fate Score → Fate Score
  acknowledge wild_access = wild_access
  acknowledge null_access = null_access
  acknowledge no_end = no_end
  acknowledge (lives p calls) =
      lives (record p { request_all = false })
        (acks (comm_send_ack p.ack p.fake_hash (if p.request_all then pos 1 else pos 0)) ∷ calls)

  -- The state with the new map, the place of the robot, and what an injected error changes.
  abbrev pub moved : Planner Score → ObstacleMap → Planner Score
  moved p map = record p {
    obstacle_map = map;
    pose = record { x = p.received.pose_x; y = p.received.pose_y };
    insert_sdc = false;
    fake_hash = if p.insert_sdc then p.fake_hash +ℤ pos 1 else p.fake_hash;
  }

  unfoldable pub replan : Planner Score → Option ObstacleMap → Fate Score
  replan p none = wild_access
  replan p (some map) =
      let q = moved p map in
      acknowledge (
        if ltb 0 (rounds p.received.obs_count)
        then plan q (command d map q.pose q.goal q.way.goal_path)
        else lives q [])

  -- A map update that was received: the place of the robot, the obstacles, the plan.
  unfoldable pub apply_update : Planner Score → Fate Score
  apply_update p =
      replan p (mark_obstacles p.received (rounds p.received.obs_count) 0 p.obstacle_map)

  abbrev pub with_update : Planner Score → ℤ × MapUpdate → Fate Score
  with_update p (read_ret, msg) =
      let received = record p { received = msg } in
      if ltz (pos 0) read_ret then apply_update received else lives received []

  unfoldable pub on_update : Round → Planner Score → Fate Score
  on_update r p = with_update p (comm_recv_map_update r.header r.obstacles p.updates p.received)

  abbrev pub is_one : ℤ → Bool
  is_one (pos n) = n == 1
  is_one (negsuc n) = false

  abbrev pub answered :
      Planner Score → Bool → Option (Option (ℕ × WayRes Score) × Way Score) → Fate Score
  answered p forced none = null_access
  answered p forced (some (msg, way)) =
      lives (record p { way = way; ready_to_send = if forced then false else p.ready_to_send })
        (way_points msg ∷ [])

  unfoldable pub on_request : Round → Planner Score → Fate Score
  on_request r p =
      let forced = p.ready_to_send || is_one r.padding in
      if ltz (pos 0) r.read_ret
      then answered p forced (send_waypoints d p.way_res forced p.way)
      else lives p []

  abbrev pub add_calls : List (Call Score) → Fate Score → Fate Score
  add_calls calls (lives p more) = lives p (calls ++ more)
  add_calls calls wild_access = wild_access
  add_calls calls null_access = null_access
  add_calls calls no_end = no_end

  -- What follows, if the controller lives, and the calls of both.
  unfoldable pub and_then : Fate Score → (Planner Score → Fate Score) → Fate Score
  and_then wild_access next = wild_access
  and_then null_access next = null_access
  and_then no_end next = no_end
  and_then (lives p calls) next = add_calls calls (next p)

  -- One round of `enterLoop`, once select() has answered with a positive number.
  unfoldable pub enter_loop_round : Round → Planner Score → Fate Score
  enter_loop_round r p =
      if p.insert_cfe
      then no_end
      else and_then (if r.update_ready then on_update r p else lives p [])
          (λ q. if r.request_ready then on_request r q else lives q [])
