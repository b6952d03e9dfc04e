-- ===== src/Mapper.antt =====
-- controllers/mapper.c: the mapper. It counts how often a place is sensed as an obstacle, and tells the
-- planner of each that it has sensed often enough.
use s3res.Prelude.{
  ℕ, ◌+◌, ◌-◌, ◌^◌, ltb, ◌==◌, ◌&&◌, ◌||◌, Bool, true, false, Option, none, some, List, [], get_or,
  set, for_range, if◌then◌else◌,
}
use s3res.Prelude.Int.{ℤ, pos, negsuc, ◌+ℤ◌}
use s3res.Sys.{Syscall}
use s3res.CommTypes.{
  CommMessage, TypedPipe, no_typed_pipe, comm_error, way_req, way_res, mov_cmd, range_pose_data,
  map_update, comm_ack, msg_buffer,
}
use s3res.CommTypes.MapUpdate.{MapUpdate, comm_send_map_update}
use s3res.CommTypes.Structs.{RangePoseData, CommAck}
use s3res.Mapping.{Doubles}
use s3res.Mapping.Grid.{PointD, PointI, gridify, grid_num}
pub mod Announce
pub mod Scan
pub mod Resend
pub mod Restart
mod Tests

-- OBS_THRES and MAX_OBSTACLES
abbrev pub obs_thres : ℕ
obs_thres = 2

abbrev pub max_obstacles : ℕ
max_obstacles = 2042

-- `data_index`, `update_index` and `ack_index`
pub record Indexes : Type 0 where
  pub data_index : ℕ
  pub update_index : ℕ
  pub ack_index : ℕ

-- One case of the switch in `setPipeIndexes`.
unfoldable pub index_of_type : CommMessage → ℕ → Indexes → Indexes
index_of_type range_pose_data i indexes = record indexes { data_index = i }
index_of_type map_update i indexes = record indexes { update_index = i }
index_of_type comm_ack i indexes = record indexes { ack_index = i }
index_of_type way_res i indexes = indexes
index_of_type way_req i indexes = indexes
index_of_type comm_error i indexes = indexes
index_of_type mov_cmd i indexes = indexes
index_of_type msg_buffer i indexes = indexes

-- PIPE_COUNT is 3.
unfoldable pub set_pipe_indexes : List TypedPipe → Indexes → Indexes
set_pipe_indexes pipes =
    for_range 3 0 (λ i indexes. index_of_type (get_or pipes i no_typed_pipe).type i indexes)

-- `obstacle_map` (within the grid) and `send_msg`, whose arrays have `max_obstacles` places each
pub record Sightings : Type 0 where
  pub obstacle_map : ℕ → ℕ → ℕ
  pub send_msg : MapUpdate

-- The place is put behind the obstacles of the message; `none` outside of its arrays.
unfoldable pub announce : ℕ → ℕ → MapUpdate → Option MapUpdate
announce x y msg =
    if ltb msg.obs_count max_obstacles
    then some (record msg {
      obs_x = set msg.obs_x msg.obs_count x;
      obs_y = set msg.obs_y msg.obs_count y;
      obs_count = msg.obs_count + 1;
    })
    else none

-- what follows on a state, if there is one
abbrev pub on_some : {A B : Type 0} → (A → Option B) → Option A → Option B
on_some f none = none
on_some f (some a) = f a

abbrev pub with_msg : Sightings → MapUpdate → Option Sightings
with_msg s msg = some (record s { send_msg = msg })

-- One more sighting of a place of the grid.
unfoldable pub count_sighting : ℕ → ℕ → Sightings → Option Sightings
count_sighting x y s =
    let seen = s.obstacle_map x y + 1 in
    let counted = record s {
      obstacle_map = λ a b. if a == x && (b == y) then seen else s.obstacle_map a b;
    } in
    if ltb obs_thres (s.obstacle_map x y)
    then some s
    else if ltb obs_thres seen
    then on_some (with_msg counted) (announce x y s.send_msg)
    else some counted

-- `addObstacle`, whose answer nobody uses; `none` for an access outside of an array.
unfoldable pub add_obstacle : PointI → Sightings → Option Sightings
add_obstacle obs s = elim obs.x [
  | negsuc _ ↦ some s
  | pos x ↦ elim obs.y [
    | negsuc _ ↦ some s
    | pos y ↦
        if ltb grid_num x || ltb grid_num y
        then some s
        else if ltb x grid_num && ltb y grid_num
        then count_sighting x y s
        else none
  ]
]

-- The trigonometry of the C library, and M_PI.
pub record Trig (Score : Type 0) : Type 0 where
  pub pi : Score
  pub cos : Score → Score
  pub sin : Score → Score

abbrev pub is_one : ℤ → Bool
is_one (pos n) = n == 1
is_one (negsuc n) = false

-- What the mapper keeps between the rounds.
pub record Mapper : Type 0 where
  pub sightings : Sightings
  pub resending_all : Bool
  pub insert_sdc : Bool
  pub insert_cfe : Bool
  pub seq_count : ℤ

-- How a round ends: with the state after it and what it writes, with an access outside of an array, or
-- in the endless loop of an injected control-flow error.
pub data Fate : Type 0 where
  lives : Mapper → List Syscall → Fate
  wild_access no_end : Fate

-- RANGE_COUNT
abbrev pub range_count : ℕ
range_count = 16

-- All places that are known as obstacles, in the order of the two loops.
unfoldable pub resend_all : Sightings → Option Sightings
resend_all s =
    for_range grid_num 0
      (λ i st.
        for_range grid_num 0
          (λ j st.
            on_some
              (λ t.
                if ltb obs_thres (t.obstacle_map i j)
                then on_some (with_msg t) (announce i j t.send_msg)
                else some t)
              st)
          st)
      (some s)

module _ {Score : Type 0} (d : Doubles Score) (trig : Trig Score) where
  -- The place where the i-th range ends.
  unfoldable pub sensed : RangePoseData Score → ℕ → PointI
  sensed frame i =
      let pose_x = get_or frame.pose 0 d.origin in
      let pose_y = get_or frame.pose 1 d.origin in
      let theta_pose = get_or frame.pose 2 d.origin in
      let range = get_or frame.ranges i d.origin in
      let tao =
        d.divide (d.times (d.times (d.of_nat 2) trig.pi) (d.of_nat i)) (d.of_nat range_count) in
      let l_x = d.times range (trig.cos tao) in
      let l_y = d.times range (trig.sin tao) in
      gridify d (record {
        x =
            d.plus (d.minus (d.times l_x (trig.cos theta_pose)) (d.times l_y (trig.sin theta_pose)))
              pose_x;
        y =
            d.plus (d.plus (d.times l_x (trig.sin theta_pose)) (d.times l_y (trig.cos theta_pose)))
              pose_y;
      })

  -- The loop over the ranges, on a message without obstacles.
  unfoldable pub scan_ranges : RangePoseData Score → Sightings → Option Sightings
  scan_ranges frame s =
      for_range range_count 0 (λ i st. on_some (add_obstacle (sensed frame i)) st)
        (some (record s { send_msg = record s.send_msg { obs_count = 0 } }))

  -- an int as its 32 bits
  abbrev pub word : ℤ → ℕ
  word (pos n) = n
  word (negsuc n) = 2 ^ 32 - 1 - n

  abbrev pub with_pose : PointI → Sightings → MapUpdate
  with_pose pose s = record s.send_msg { pose_x = word pose.x; pose_y = word pose.y }

  -- the sightings after the scan, if all known obstacles are sent again
  abbrev pub resend_if : Bool → Sightings → Option Sightings
  resend_if resending_all s = if resending_all then resend_all s else some s

  abbrev pub tell : PointI → Mapper → Option Sightings → Option (Mapper × MapUpdate)
  tell current_pose m none = none
  tell current_pose m (some s) =
      let msg = with_pose current_pose s in
      some (
        record m {
          sightings = record s { send_msg = msg };
          resending_all = false;
          insert_sdc = false;
        },
        msg,
      )

  abbrev pub pose_after : RangePoseData Score → Mapper → PointI
  pose_after frame m =
      let pose =
        gridify d (record { x = get_or frame.pose 0 d.origin; y = get_or frame.pose 1 d.origin }) in
      if m.insert_sdc then record pose { x = pose.x +ℤ pos 1 } else pose

  -- The message of one round, and the state after it; `none` for an access outside of an array.
  unfoldable pub update_map : RangePoseData Score → Mapper → Option (Mapper × MapUpdate)
  update_map frame m =
      tell (pose_after frame m) m
        (on_some (resend_if m.resending_all) (scan_ranges frame m.sightings))

  -- What one round of `enterLoop` gets: a whole frame, if the descriptor is ready and the read has the
  -- size of one; and the acknowledgement likewise.
  pub record Round : Type 0 where
    pub frame : Option (RangePoseData Score)
    pub ack : Option CommAck

  abbrev pub on_ack : Option CommAck → Mapper → Mapper
  on_ack none m = m
  on_ack (some msg) m = record m {
    resending_all = if is_one msg.resend_request then true else m.resending_all;
  }

  -- One round of `enterLoop`, once select() has answered with a positive number.
  unfoldable pub enter_loop_round : TypedPipe → Round → Mapper → Fate
  enter_loop_round update_pipe r m = if m.insert_cfe then no_end else elim r.frame [
    | none ↦ lives (on_ack r.ack m) []
    | some frame ↦ elim (update_map frame (record m { seq_count = frame.seq_count })) [
      | none ↦ wild_access
      | some (m', msg) ↦ lives (on_ack r.ack m') (comm_send_map_update update_pipe msg)
    ]
  ]
