-- ===== src/CommTypes/Tests.antt =====
-- The theorems on commtypes.c at concrete data.
use s3res.Prelude.Int.{pos}
use s3res.CommTypes.Structs.{
  RangePoseData, comm_send_ranger, comm_copy_ranger, comm_copy_ranger-comm_send_ranger,
}
use s3res.Prelude.{ℕ, ◌++◌, ◌<◌, refl, length, replicate, some, ◌≡◌, List, [], ◌∷◌, get_or, arith}
use s3res.CommTypes.{
  CommMessage, map_update, msg_buffer, TypedPipe, mov_cmd, range_pose_data, no_typed_pipe,
}
use s3res.CommTypes.MapUpdate.{MapUpdate, comm_send_map_update, comm_recv_map_update}
use s3res.CommTypes.MapUpdate.RoundTrip.{map_update_round_trip}
use s3res.CommTypes.MsgBuffer.{comm_send_msg_buffer, comm_recv_msg_buffer, msg_buffer_round_trip}
use s3res.Sys.{got, write_to}
use s3res.VoteBuff.{VotePipe, no_pipe}

abbrev typed : List TypedPipe
typed =
    record { type = mov_cmd; fd_in = 0; fd_out = 9 }
    ∷ record { type = range_pose_data; fd_in = 8; fd_out = 0 }
    ∷ []

abbrev fresh : List TypedPipe
fresh = no_typed_pipe ∷ no_typed_pipe ∷ []

abbrev votes : List VotePipe
votes = no_pipe ∷ no_pipe ∷ []

abbrev pipe_for : CommMessage → ℕ → ℕ → TypedPipe
pipe_for type fd_in fd_out = record { type = type; fd_in = fd_in; fd_out = fd_out }

abbrev two_obstacles : MapUpdate
two_obstacles = record {
  pose_x = 300;
  pose_y = 70000;
  obs_count = 2;
  obs_x = 4 ∷ 5 ∷ [];
  obs_y = 6 ∷ 7 ∷ [];
}

abbrev room : MapUpdate
room = record {
  pose_x = 0;
  pose_y = 0;
  obs_count = 0;
  obs_x = 0 ∷ 0 ∷ 0 ∷ [];
  obs_y = 0 ∷ 0 ∷ 0 ∷ [];
}

map_update_round_trip_example :
    (header rest : List ℕ) × (comm_send_map_update (pipe_for map_update 0 9) two_obstacles
      ≡ write_to 9 (header ++ rest) ∷ [])
    × (length header ≡ 12)
    × (let m = (comm_recv_map_update (got header) (got rest) (pipe_for map_update 8 0) room).1 in
        (m.pose_x ≡ 300)
        × (m.pose_y ≡ 70000)
        × (m.obs_count ≡ 2)
        × ((i : ℕ)
            → i < 2
            → (get_or m.obs_x i 0 ≡ get_or two_obstacles.obs_x i 0)
              × (get_or m.obs_y i 0 ≡ get_or two_obstacles.obs_y i 0)))
map_update_round_trip_example =
    map_update_round_trip two_obstacles room (pipe_for map_update 0 9) (pipe_for map_update 8 0)
      refl (omega arith) refl (omega arith) (omega arith) (omega arith) (omega arith) (omega arith)
      (omega arith)

msg_buffer_round_trip_example :
    (header : List ℕ) × (comm_send_msg_buffer
        (pipe_for msg_buffer 0 9)
        (record { length_field = 3; message = 1 ∷ 2 ∷ 3 ∷ [] })
      ≡ write_to 9 (header ++ (1 ∷ 2 ∷ 3 ∷ [])) ∷ [])
    × (length header ≡ 4)
    × ((comm_recv_msg_buffer
          (got header)
          (got (1 ∷ 2 ∷ 3 ∷ []))
          (0 ∷ 0 ∷ 0 ∷ [])
          (pipe_for msg_buffer 8 0)
          (record { length_field = 0; message = [] })).1
        ≡ record { length_field = 3; message = 1 ∷ 2 ∷ 3 ∷ [] })
msg_buffer_round_trip_example =
    msg_buffer_round_trip (1 ∷ 2 ∷ 3 ∷ []) (0 ∷ 0 ∷ 0 ∷ [])
      (record { length_field = 0; message = [] }) (pipe_for msg_buffer 0 9)
      (pipe_for msg_buffer 8 0) refl (omega arith) refl (omega arith) (omega arith) refl

abbrev ranges : List ℕ
ranges = 1 ∷ 2 ∷ 3 ∷ 4 ∷ 5 ∷ 6 ∷ 7 ∷ 8 ∷ 9 ∷ 10 ∷ 11 ∷ 12 ∷ 13 ∷ 14 ∷ 15 ∷ 16 ∷ []

abbrev ranger : TypedPipe
ranger = record { type = range_pose_data; fd_in = 0; fd_out = 9 }

comm_copy_ranger-comm_send_ranger_example :
    (msg : RangePoseData ℕ) × (comm_send_ranger 0 ranger (pos 4) ranges (7 ∷ 8 ∷ 9 ∷ [])
      ≡ some (9, msg))
    × ((comm_copy_ranger 0 msg (replicate 16 0) (0 ∷ 0 ∷ 0 ∷ [])).0 ≡ pos 4)
    × ((i : ℕ)
        → i < 16
        → get_or (comm_copy_ranger 0 msg (replicate 16 0) (0 ∷ 0 ∷ 0 ∷ [])).1 i 0
          ≡ get_or ranges i 0)
    × ((i : ℕ)
        → i < 3
        → get_or (comm_copy_ranger 0 msg (replicate 16 0) (0 ∷ 0 ∷ 0 ∷ [])).2 i 0
          ≡ get_or (7 ∷ 8 ∷ 9 ∷ []) i 0)
comm_copy_ranger-comm_send_ranger_example =
    comm_copy_ranger-comm_send_ranger 0 ranger (pos 4) ranges (7 ∷ 8 ∷ 9 ∷ []) (replicate 16 0)
      (0 ∷ 0 ∷ 0 ∷ []) refl (omega arith) (omega arith) (omega arith)
