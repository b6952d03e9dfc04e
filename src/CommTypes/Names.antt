-- ===== src/CommTypes/Names.antt =====
-- The names of the message types read back.
use Prim.Native.String.{String}
use text.Mathlib.TextEquality.{eq_iff}
use s3res.Prelude.{◌≡◌, ◌≢◌, refl, arith}
use s3res.CommTypes.{
  CommMessage, comm_error, way_req, way_res, mov_cmd, range_pose_data, map_update, comm_ack,
  msg_buffer, message_t, comm_to_enum,
}

-- Each message type's name reads back as the type, the error type included.
pub comm_to_enum-message_t : (t : CommMessage) → comm_to_enum (message_t t) ≡ t
unfolding comm_to_enum message_t
comm_to_enum-message_t comm_error = refl
comm_to_enum-message_t way_req = refl
comm_to_enum-message_t way_res = refl
comm_to_enum-message_t mov_cmd = refl
comm_to_enum-message_t range_pose_data = refl
comm_to_enum-message_t map_update = refl
comm_to_enum-message_t comm_ack = refl
comm_to_enum-message_t msg_buffer = refl

-- A text that is read as a message type is that type's name: no other spelling is accepted.
message_t-comm_to_enum : (s : String) → comm_to_enum s ≢ comm_error → message_t (comm_to_enum s) ≡ s
unfolding comm_to_enum message_t
message_t-comm_to_enum s h = ground (
  arith,
  eq_iff s "WAY_REQ",
  eq_iff s "WAY_RES",
  eq_iff s "MOV_CMD",
  eq_iff s "RANGE_POSE_DATA",
  eq_iff s "MAP_UPDATE",
  eq_iff s "COMM_ACK",
  eq_iff s "MSG_BUFFER",
)
