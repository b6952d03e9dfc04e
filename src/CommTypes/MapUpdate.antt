-- ===== src/CommTypes/MapUpdate.antt =====
-- src/commtypes.c: map updates are sent and received (`commSendMapUpdate`, `commRecvMapUpdate`).
use s3res.Prelude.{
  ℕ, zero, suc, ◌+◌, ◌*◌, ◌/◌, ◌%◌, ◌^◌, List, [], ◌∷◌, ◌++◌, length, get_or, set, replicate, Bool,
  true, false, write_at, for_range, ltb, ◌==◌, ◌||◌, not, if◌then◌else◌,
}
use s3res.Prelude.Int.{ℤ, pos, negsuc}
use s3res.Sys.{ReadResult, failed, got, Syscall, write_to}
use s3res.CommTypes.{
  TypedPipe, CommMessage, comm_error, way_req, way_res, mov_cmd, range_pose_data, map_update,
  comm_ack, msg_buffer,
}
pub mod Bytes
pub mod RoundTrip

-- `struct comm_map_update`. An int stands for its 32 bits, read without a sign.
pub record MapUpdate : Type 0 where
  pub pose_x : ℕ
  pub pose_y : ℕ
  pub obs_count : ℕ
  pub obs_x : List ℕ
  pub obs_y : List ℕ

-- MAX_TYPED_PIPE_BUFF
abbrev pub max_typed_pipe_buff : ℕ
max_typed_pipe_buff = 4096

abbrev pub is_map_update : CommMessage → Bool
is_map_update map_update = true
is_map_update comm_error = false
is_map_update way_req = false
is_map_update way_res = false
is_map_update mov_cmd = false
is_map_update range_pose_data = false
is_map_update comm_ack = false
is_map_update msg_buffer = false

-- The four bytes of an int, the highest first.
abbrev pub int_bytes : ℕ → List ℕ
int_bytes x = x / 2 ^ 24 % 2 ^ 8 ∷ x / 2 ^ 16 % 2 ^ 8 ∷ x / 2 ^ 8 % 2 ^ 8 ∷ x % 2 ^ 8 ∷ []

-- `b[i] << 24 | b[i + 1] << 16 | b[i + 2] << 8 | b[i + 3]`, of bytes
abbrev pub int_at : List ℕ → ℕ → ℕ
int_at buffer i =
    get_or buffer i 0 * 2 ^ 24
    + get_or buffer (i + 1) 0 * 2 ^ 16
    + get_or buffer (i + 2) 0 * 2 ^ 8
    + get_or buffer (i + 3) 0

-- How often `for (index = 0; index < count; index++)` runs for an int.
abbrev pub rounds : ℕ → ℕ
rounds count = if ltb count (2 ^ 31) then count else 0

-- The loop over the obstacles, with its break.
unfoldable pub put_obstacles : MapUpdate → ℕ → ℕ → List ℕ → List ℕ
put_obstacles msg zero index buffer = buffer
put_obstacles msg (suc n) index buffer =
    let filled = buffer ++ (get_or msg.obs_x index 0 ∷ get_or msg.obs_y index 0 ∷ []) in
    let rest = put_obstacles msg n (index + 1) filled in
    if ltb max_typed_pipe_buff (length filled) then filled else rest

-- What `commSendMapUpdate` writes; it returns what write() answers.
unfoldable pub comm_send_map_update : TypedPipe → MapUpdate → List Syscall
comm_send_map_update pipe msg =
    let header = int_bytes msg.pose_x ++ int_bytes msg.pose_y ++ int_bytes msg.obs_count in
    if pipe.fd_out == 0 || not (is_map_update pipe.type)
    then []
    else write_to pipe.fd_out (put_obstacles msg (rounds msg.obs_count) 0 header) ∷ []

-- read()'s answer as an int
abbrev pub read_ret : ReadResult → ℤ
read_ret failed = negsuc 0
read_ret (got bytes) = pos (length bytes)

-- The header and the obstacles, in the buffer that begins with zeros.
unfoldable pub recv_buffer : List ℕ → List ℕ → List ℕ
recv_buffer header rest = write_at (write_at (replicate max_typed_pipe_buff 0) 0 header) 12 rest

abbrev pub store_obstacles : List ℕ → MapUpdate → MapUpdate
store_obstacles buffer msg = record msg {
  obs_x = for_range msg.obs_count 0 (λ i xs. set xs i (get_or buffer (12 + i * 2) 0)) msg.obs_x;
  obs_y =
      for_range msg.obs_count 0 (λ i ys. set ys i (get_or buffer (12 + (i * 2 + 1)) 0)) msg.obs_y;
}

-- The second read(), if the header announces obstacles.
unfoldable pub recv_obstacles : List ℕ → ReadResult → MapUpdate → ℤ × MapUpdate
recv_obstacles header failed msg = (negsuc 0, msg)
recv_obstacles header (got rest) msg = (
  pos (length rest),
  if length rest == 2 * msg.obs_count then store_obstacles (recv_buffer header rest) msg else msg,
)

-- The answer is what the last read() has answered, and the message.
unfoldable pub comm_recv_map_update :
    ReadResult → ReadResult → TypedPipe → MapUpdate → ℤ × MapUpdate
comm_recv_map_update first second pipe msg =
    if pipe.fd_in == 0 || not (is_map_update pipe.type) then (pos 0, msg) else elim first [
      | failed ↦ (negsuc 0, msg)
      | got header ↦
          let stored = record msg {
            pose_x = int_at header 0;
            pose_y = int_at header 4;
            obs_count = int_at header 8;
          } in
          if length header == 12
          then if ltb 0 (rounds stored.obs_count)
            then recv_obstacles header second stored
            else (pos 12, stored)
          else (pos (length header), msg)
    ]
