-- ===== src/CommTypes.antt =====
-- src/commtypes.c and include/commtypes.h: the message types, and the pipes that carry them.
use Prim.Native.String.{String}
use text.Mathlib.Text.{◌==◌ as str_eq}
use s3res.Prelude.{ℕ, List, map, if◌then◌else◌}
pub mod Names
pub mod Convert
pub mod MapUpdate
pub mod MsgBuffer
pub mod Structs
mod Tests

-- `comm_message_t`
pub data CommMessage : Type 0 where
  comm_error way_req way_res mov_cmd range_pose_data map_update comm_ack msg_buffer : CommMessage

-- `MESSAGE_T`
pub message_t : CommMessage → String
message_t comm_error = "COMM_ERROR"
message_t way_req = "WAY_REQ"
message_t way_res = "WAY_RES"
message_t mov_cmd = "MOV_CMD"
message_t range_pose_data = "RANGE_POSE_DATA"
message_t map_update = "MAP_UPDATE"
message_t comm_ack = "COMM_ACK"
message_t msg_buffer = "MSG_BUFFER"

unfoldable pub comm_to_enum : String → CommMessage
comm_to_enum name =
    if str_eq name "WAY_REQ"
    then way_req
    else if str_eq name "WAY_RES"
    then way_res
    else if str_eq name "MOV_CMD"
    then mov_cmd
    else if str_eq name "RANGE_POSE_DATA"
    then range_pose_data
    else if str_eq name "MAP_UPDATE"
    then map_update
    else if str_eq name "COMM_ACK"
    then comm_ack
    else if str_eq name "MSG_BUFFER"
    then msg_buffer
    else comm_error

-- `struct typed_pipe`
pub record TypedPipe : Type 0 where
  pub type : CommMessage
  pub fd_in : ℕ
  pub fd_out : ℕ

-- what stands in for a pipe out of range
abbrev pub no_typed_pipe : TypedPipe
no_typed_pipe = record { type = comm_error; fd_in = 0; fd_out = 0 }
