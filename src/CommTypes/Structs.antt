-- ===== src/CommTypes/Structs.antt =====
-- src/commtypes.c: the messages of a fixed size, which are sent as the structs that they are.
use s3res.Prelude.{
  ℕ, ◌≤◌, ◌<◌, ◌==◌, ◌||◌, not, false, Option, none, some, List, length, get_or, set, replicate,
  for_range, for_range-set, if◌then◌else◌, ◌≡◌, ◌≢◌, refl, ◌∙◌, arith,
}
use s3res.Prelude.Int.{ℤ}
use s3res.CommTypes.{
  TypedPipe, CommMessage, comm_error, way_req, way_res, mov_cmd, range_pose_data, map_update,
  comm_ack, msg_buffer,
}

-- RANGER_COUNT
abbrev pub ranger_count : ℕ
ranger_count = 16

-- `struct comm_way_req`
pub record WayReq : Type 0 where
  pub padding : ℤ

-- `struct comm_way_res`: INDEX_X, INDEX_Y and INDEX_A are 0, 1 and 2
pub record WayRes (Double : Type 0) : Type 0 where
  pub point : List Double
  pub n_point : List Double

-- `struct comm_mov_cmd`
pub record MovCmd (Double : Type 0) : Type 0 where
  pub seq_count : ℤ
  pub vel_cmd : List Double

-- `struct comm_range_pose_data`
pub record RangePoseData (Double : Type 0) : Type 0 where
  pub seq_count : ℤ
  pub ranges : List Double
  pub pose : List Double

-- `struct comm_ack`
pub record CommAck : Type 0 where
  pub hash : ℤ
  pub resend_request : ℤ

-- the value of an enumerator
abbrev pub enum_value : CommMessage → ℕ
enum_value comm_error = 0
enum_value way_req = 1
enum_value way_res = 2
enum_value mov_cmd = 3
enum_value range_pose_data = 4
enum_value map_update = 5
enum_value comm_ack = 6
enum_value msg_buffer = 7

-- The descriptor and the struct that write() is called with. `none`: the pipe is not open, or it is
-- of another type, and the answer is 0.
unfoldable pub send_struct :
    {Message : Type 0} → CommMessage → TypedPipe → Message → Option (ℕ × Message)
send_struct type pipe msg =
    if pipe.fd_out == 0 || not (enum_value pipe.type == enum_value type)
    then none
    else some (pipe.fd_out, msg)

abbrev pub comm_send_waypoint_request : TypedPipe → ℤ → Option (ℕ × WayReq)
comm_send_waypoint_request pipe padding = send_struct way_req pipe (record { padding = padding })

abbrev pub comm_send_ack : TypedPipe → ℤ → ℤ → Option (ℕ × CommAck)
comm_send_ack pipe state_hash resend_request =
    send_struct comm_ack pipe (record { hash = state_hash; resend_request = resend_request })

-- `zero` is what memset() leaves in a double.
module _ {Double : Type 0} (zero : Double) where
  -- `for (index = 0; index < count; index++) to[index] = from[index];`
  abbrev pub copy_doubles : ℕ → List Double → List Double → List Double
  copy_doubles count from to = for_range count 0 (λ i xs. set xs i (get_or from i zero)) to

  abbrev pub three : Double → Double → Double → List Double
  three x y a = set (set (set (replicate 3 zero) 0 x) 1 y) 2 a

  abbrev pub comm_send_waypoints :
      TypedPipe → (way_x way_y way_a n_way_x n_way_y n_way_a : Double) → Option (ℕ × WayRes Double)
  comm_send_waypoints pipe way_x way_y way_a n_way_x n_way_y n_way_a =
      send_struct way_res pipe
        (record { point = three way_x way_y way_a; n_point = three n_way_x n_way_y n_way_a })

  -- The two arrays that the caller keeps, after the copy.
  unfoldable pub comm_copy_waypoints :
      WayRes Double → List Double → List Double → List Double × List Double
  comm_copy_waypoints recv_msg waypoints n_waypoints =
      (copy_doubles 3 recv_msg.point waypoints, copy_doubles 3 recv_msg.n_point n_waypoints)

  abbrev pub comm_send_move_command : TypedPipe → ℤ → Double → Double → Option (ℕ × MovCmd Double)
  comm_send_move_command pipe seq_count vel_0 vel_1 =
      send_struct mov_cmd pipe
        (record { seq_count = seq_count; vel_cmd = set (set (replicate 2 zero) 0 vel_0) 1 vel_1 })

  abbrev pub comm_send_ranger :
      TypedPipe → ℤ → List Double → List Double → Option (ℕ × RangePoseData Double)
  comm_send_ranger pipe seq_count ranger_data pose_data = send_struct range_pose_data pipe (record {
    seq_count = seq_count;
    ranges = copy_doubles ranger_count ranger_data (replicate ranger_count zero);
    pose = copy_doubles 3 pose_data (replicate 3 zero);
  })

  -- The sequence number and the two arrays that the caller keeps, after the copy.
  unfoldable pub comm_copy_ranger :
      RangePoseData Double → List Double → List Double → ℤ × List Double × List Double
  comm_copy_ranger recv_msg range_data pose_data = (
    recv_msg.seq_count,
    copy_doubles ranger_count recv_msg.ranges range_data,
    copy_doubles 3 recv_msg.pose pose_data,
  )

  pub copy_doubles-copies :
      (count : ℕ) (from to : List Double)
      → count ≤ length to
      → (i : ℕ) → i < count
      → get_or (copy_doubles count from to) i zero ≡ get_or from i zero
  copy_doubles-copies count from to h i lt =
      for_range-set count (λ i _. get_or from i zero) to zero h i lt

  -- What a sensor frame holds arrives: on an open pipe of its type the frame is written, and the copy
  -- out of the frame gives the sequence number, the sixteen ranges and the three numbers of the pose,
  -- in arrays that have room for them.
  pub comm_copy_ranger-comm_send_ranger :
      (pipe : TypedPipe) (seq_count : ℤ) (ranger_data pose_data range_out pose_out : List Double)
      → pipe.type ≡ range_pose_data
      → pipe.fd_out ≢ 0
      → ranger_count ≤ length range_out
      → 3 ≤ length pose_out
      → (msg : RangePoseData Double) × (comm_send_ranger pipe seq_count ranger_data pose_data
          ≡ some (pipe.fd_out, msg))
        × ((comm_copy_ranger msg range_out pose_out).0 ≡ seq_count)
        × ((i : ℕ)
            → i < ranger_count
            → get_or (comm_copy_ranger msg range_out pose_out).1 i zero ≡ get_or ranger_data i zero)
        × ((i : ℕ)
            → i < 3
            → get_or (comm_copy_ranger msg range_out pose_out).2 i zero ≡ get_or pose_data i zero)
  unfolding comm_copy_ranger send_struct
  comm_copy_ranger-comm_send_ranger pipe seq_count ranger_data pose_data range_out pose_out
        is_ranger opened range_room pose_room =
      let closed : (pipe.fd_out == 0) ≡ false = ground arith in
      (
        record {
          seq_count = seq_count;
          ranges = copy_doubles ranger_count ranger_data (replicate ranger_count zero);
          pose = copy_doubles 3 pose_data (replicate 3 zero);
        },
        rw (closed, is_ranger) refl,
        refl,
        (λ i lt.
            copy_doubles-copies ranger_count _ range_out range_room i lt
            ∙ copy_doubles-copies ranger_count ranger_data (replicate ranger_count zero)
                (omega arith) i lt),
        (λ i lt.
            copy_doubles-copies 3 _ pose_out pose_room i lt
            ∙ copy_doubles-copies 3 pose_data (replicate 3 zero) (omega arith) i lt),
      )
