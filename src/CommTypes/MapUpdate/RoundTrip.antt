-- ===== src/CommTypes/MapUpdate/RoundTrip.antt =====
-- A map update that is sent is received as it was.
use s3res.Prelude.{
  ℕ, ◌+◌, ◌*◌, ◌^◌, ◌<◌, ◌≤◌, ◌≡◌, ◌≢◌, refl, sym, ap, subst, ◌∙◌, inl, inr, true, false, List, [],
  ◌∷◌, ◌++◌, length, length-write_at, length-replicate, get_or, replicate, get_or-write_at_in,
  for_range-set, lt-cases, write_at, ltb, ◌==◌, arith,
}
use s3res.Sys.{got, write_to}
use s3res.CommTypes.{TypedPipe, map_update}
use s3res.CommTypes.MapUpdate.{
  MapUpdate, max_typed_pipe_buff, int_bytes, rounds, comm_send_map_update, recv_buffer,
  recv_obstacles, store_obstacles, comm_recv_map_update,
}
use s3res.CommTypes.MapUpdate.Bytes.{
  pairs, length-pairs, put_obstacles_fit, pairs_x, pairs_y, int_lem,
}

-- The message, as it leaves: header and obstacles.
abbrev header_of : MapUpdate → List ℕ
header_of msg = int_bytes msg.pose_x ++ int_bytes msg.pose_y ++ int_bytes msg.obs_count

-- Where the received obstacles stand in the buffer.
recv_buffer_at :
    (header rest : List ℕ) (i j : ℕ)
    → i ≡ 12 + j
    → j < length rest
    → i < max_typed_pipe_buff
    → get_or (recv_buffer header rest) i 0 ≡ get_or rest j 0
unfolding recv_buffer
recv_buffer_at header rest i j e h k =
    get_or-write_at_in (write_at (replicate max_typed_pipe_buff 0) 0 header) 12 rest i j 0 e h
      (omega (arith, full, k))
  where
    full : length (write_at (replicate max_typed_pipe_buff 0) 0 header) ≡ max_typed_pipe_buff
    full =
        length-write_at (replicate max_typed_pipe_buff 0) 0 header
        ∙ length-replicate {A = ℕ} max_typed_pipe_buff 0

sends_all :
    (msg : MapUpdate) (out : TypedPipe)
    → out.type ≡ map_update
    → out.fd_out ≢ 0
    → msg.obs_count ≤ 2042
    → comm_send_map_update out msg
      ≡ write_to out.fd_out (header_of msg ++ pairs msg msg.obs_count 0) ∷ []
unfolding comm_send_map_update
sends_all msg out is_map opened fits =
    let closed : (out.fd_out == 0) ≡ false = ground arith in
    let all : rounds msg.obs_count ≡ msg.obs_count = ground arith in
    rw (closed, is_map, all)
      (ap (λ bytes. write_to out.fd_out bytes ∷ [])
        (put_obstacles_fit msg msg.obs_count 0 (header_of msg) (omega arith)))

-- The header, read back.
abbrev with_header : MapUpdate → MapUpdate → MapUpdate
with_header msg into = record into {
  pose_x = msg.pose_x;
  pose_y = msg.pose_y;
  obs_count = msg.obs_count;
}

module _ (msg into : MapUpdate) (inp : TypedPipe) (is_map : inp.type ≡ map_update)
    (opened : inp.fd_in ≢ 0) (x_fits : msg.pose_x < 2 ^ 32) (y_fits : msg.pose_y < 2 ^ 32)
    (fits : msg.obs_count ≤ 2042) where
  -- What the receiver makes of a whole header and of whole obstacles, if there is room for them.
  receives_all :
      (rest : List ℕ)
      → length rest ≡ 2 * msg.obs_count
      → 0 < msg.obs_count
      → (comm_recv_map_update (got (header_of msg)) (got rest) inp into).1
        ≡ store_obstacles (recv_buffer (header_of msg) rest) (with_header msg into)
  unfolding comm_recv_map_update recv_obstacles
  receives_all rest len some_obstacle =
      let closed : (inp.fd_in == 0) ≡ false = ground arith in
      let more : ltb 0 (rounds msg.obs_count) ≡ true = ground arith in
      let whole : (length rest == 2 * msg.obs_count) ≡ true = ground arith in
      rw
        (
          closed,
          is_map,
          int_lem msg.pose_x x_fits,
          int_lem msg.pose_y y_fits,
          int_lem msg.obs_count (omega arith),
          more,
          whole,
        )
        refl

  receives_none :
      (rest : List ℕ)
      → msg.obs_count ≡ 0
      → (comm_recv_map_update (got (header_of msg)) (got rest) inp into).1 ≡ with_header msg into
  unfolding comm_recv_map_update
  receives_none rest none =
      let closed : (inp.fd_in == 0) ≡ false = ground arith in
      let no_more : ltb 0 (rounds msg.obs_count) ≡ false = ground arith in
      rw
        (
          closed,
          is_map,
          int_lem msg.pose_x x_fits,
          int_lem msg.pose_y y_fits,
          int_lem msg.obs_count (omega arith),
          no_more,
        )
        refl

-- A map update with 32-bit poses and at most 2042 obstacles that is sent on an open pipe of its type
-- leaves in one write(). A receiver on an open pipe of the type that reads the first twelve bytes and
-- then the rest of what was written, with room for the obstacles, gets the same poses, the same number
-- of obstacles, and each obstacle's coordinates.
pub map_update_round_trip :
    (msg into : MapUpdate) (out inp : TypedPipe)
    → out.type ≡ map_update
    → out.fd_out ≢ 0
    → inp.type ≡ map_update
    → inp.fd_in ≢ 0
    → msg.pose_x < 2 ^ 32
    → msg.pose_y < 2 ^ 32
    → msg.obs_count ≤ 2042
    → msg.obs_count ≤ length into.obs_x
    → msg.obs_count ≤ length into.obs_y
    → (header rest : List ℕ) × (comm_send_map_update out msg
        ≡ write_to out.fd_out (header ++ rest) ∷ [])
      × (length header ≡ 12)
      × (let m = (comm_recv_map_update (got header) (got rest) inp into).1 in
          (m.pose_x ≡ msg.pose_x)
          × (m.pose_y ≡ msg.pose_y)
          × (m.obs_count ≡ msg.obs_count)
          × ((i : ℕ)
              → i < msg.obs_count
              → (get_or m.obs_x i 0 ≡ get_or msg.obs_x i 0)
                × (get_or m.obs_y i 0 ≡ get_or msg.obs_y i 0)))
map_update_round_trip msg into out inp out_map out_open inp_map inp_open x_fits y_fits fits room_x
      room_y =
    (
      header_of msg,
      pairs msg msg.obs_count 0,
      sends_all msg out out_map out_open fits,
      refl,
      elim (lt-cases 0 msg.obs_count) [
        | inl (_, some_obstacle) ↦
            subst Received
              (sym (
                receives_all msg into inp inp_map inp_open x_fits y_fits fits
                  (pairs msg msg.obs_count 0) (length-pairs msg msg.obs_count 0) some_obstacle))
              (refl, refl, refl, obstacles)
        | inr (_, no_obstacle) ↦
            subst Received
              (sym (
                receives_none msg into inp inp_map inp_open x_fits y_fits fits
                  (pairs msg msg.obs_count 0) (omega arith)))
              (refl, refl, refl, (λ i below. absurd (omega arith)))
      ],
    )
  where
    Received : MapUpdate → Type 0
    Received m =
        (m.pose_x ≡ msg.pose_x)
        × (m.pose_y ≡ msg.pose_y)
        × (m.obs_count ≡ msg.obs_count)
        × ((i : ℕ)
            → i < msg.obs_count
            → (get_or m.obs_x i 0 ≡ get_or msg.obs_x i 0)
              × (get_or m.obs_y i 0 ≡ get_or msg.obs_y i 0))

    rest : List ℕ
    rest = pairs msg msg.obs_count 0

    buffer : List ℕ
    buffer = recv_buffer (header_of msg) rest

    obstacles :
        (i : ℕ)
        → i < msg.obs_count
        → (get_or (store_obstacles buffer (with_header msg into)).obs_x i 0 ≡ get_or msg.obs_x i 0)
          × (get_or (store_obstacles buffer (with_header msg into)).obs_y i 0
              ≡ get_or msg.obs_y i 0)
    obstacles i below =
        let len = length-pairs msg msg.obs_count 0 in
        (
          for_range-set msg.obs_count (λ i _. get_or buffer (12 + i * 2) 0) into.obs_x 0 room_x i
                below
              ∙ recv_buffer_at (header_of msg) rest (12 + i * 2) (i * 2) refl (omega (arith, len))
                  (omega arith)
              ∙ pairs_x msg msg.obs_count 0 i below
              ∙ ap (λ k. get_or msg.obs_x k 0) (omega arith),
          for_range-set msg.obs_count (λ i _. get_or buffer (12 + (i * 2 + 1)) 0) into.obs_y 0
                room_y i below
              ∙ recv_buffer_at (header_of msg) rest (12 + (i * 2 + 1)) (i * 2 + 1) refl
                  (omega (arith, len)) (omega arith)
              ∙ pairs_y msg msg.obs_count 0 i below
              ∙ ap (λ k. get_or msg.obs_y k 0) (omega arith),
        )
