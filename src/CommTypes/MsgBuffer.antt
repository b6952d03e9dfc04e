-- ===== src/CommTypes/MsgBuffer.antt =====
-- src/commtypes.c: buffers of any bytes are sent and received (`commSendMsgBuffer`,
-- `commRecvMsgBuffer`).
use s3res.Prelude.{
  take-whole, ℕ, ◌+◌, ◌*◌, ◌/◌, ◌%◌, ◌^◌, ◌<◌, ◌≡◌, ◌≢◌, refl, ap, Bool, true, false, List, [], ◌∷◌,
  ◌++◌, length, take, get_or, write_at, lt-cases, inl, inr, ltb, ◌==◌, ◌&&◌, ◌||◌, not,
  if◌then◌else◌, arith,
}
use s3res.Prelude.Int.{ℤ, pos, negsuc}
use s3res.Sys.{ReadResult, failed, got, Syscall, write_to}
use s3res.CommTypes.{
  TypedPipe, CommMessage, comm_error, way_req, way_res, mov_cmd, range_pose_data, map_update,
  comm_ack, msg_buffer,
}

-- `struct comm_msg_buffer`. The length is an int's 32 bits, read without a sign.
pub record MsgBuffer : Type 0 where
  pub length_field : ℕ
  pub message : List ℕ

abbrev is_msg_buffer : CommMessage → Bool
is_msg_buffer msg_buffer = true
is_msg_buffer comm_error = false
is_msg_buffer way_req = false
is_msg_buffer way_res = false
is_msg_buffer mov_cmd = false
is_msg_buffer range_pose_data = false
is_msg_buffer map_update = false
is_msg_buffer comm_ack = false

-- The bytes of an int as they lie in memory, the lowest first.
abbrev pub native_bytes : ℕ → List ℕ
native_bytes x = x % 2 ^ 8 ∷ x / 2 ^ 8 % 2 ^ 8 ∷ x / 2 ^ 16 % 2 ^ 8 ∷ x / 2 ^ 24 % 2 ^ 8 ∷ []

abbrev pub native_int : List ℕ → ℕ
native_int bytes =
    get_or bytes 0 0
    + get_or bytes 1 0 * 2 ^ 8
    + get_or bytes 2 0 * 2 ^ 16
    + get_or bytes 3 0 * 2 ^ 24

-- What `commSendMsgBuffer` writes; it returns what write() answers.
unfoldable pub comm_send_msg_buffer : TypedPipe → MsgBuffer → List Syscall
comm_send_msg_buffer pipe msg =
    if pipe.fd_out == 0 || not (is_msg_buffer pipe.type)
    then []
    else write_to pipe.fd_out (native_bytes msg.length_field ++ take msg.length_field msg.message)
      ∷ []

-- The first read() is asked for the length, the second for as many bytes, which go to memory that
-- malloc() gives (`memory`).
unfoldable pub comm_recv_msg_buffer :
    ReadResult → ReadResult → List ℕ → TypedPipe → MsgBuffer → ℤ × MsgBuffer
comm_recv_msg_buffer first second memory pipe msg =
    if pipe.fd_in == 0 || not (is_msg_buffer pipe.type) then (pos 0, msg) else elim first [
      | failed ↦ (negsuc 0, msg)
      | got bytes ↦
          let stored : MsgBuffer = record { length_field = native_int bytes; message = memory } in
          if length bytes == 4
          then if ltb 0 stored.length_field && ltb stored.length_field (2 ^ 31)
            then elim second [
              | failed ↦ (negsuc 0, stored)
              | got content ↦
                  (pos (length content), record stored { message = write_at memory 0 content })
            ]
            else (pos 4, stored)
          else (
            pos (length bytes),
            record msg {
              length_field = native_int (write_at (native_bytes msg.length_field) 0 bytes);
            },
          )
    ]

write_at-whole : (xs ys : List ℕ) → length xs ≡ length ys → write_at xs 0 ys ≡ ys
write_at-whole [] [] e = refl
write_at-whole [] (y ∷ ys) e = absurd (omega arith)
write_at-whole (x ∷ xs) [] e = absurd (omega arith)
write_at-whole (x ∷ xs) (y ∷ ys) e = ap (λ l. y ∷ l) (write_at-whole xs ys (omega arith))

both_empty : (xs ys : List ℕ) → length xs ≡ length ys → length ys ≡ 0 → xs ≡ ys
both_empty [] [] e h = refl
both_empty [] (y ∷ ys) e h = absurd (omega arith)
both_empty (x ∷ xs) ys e h = absurd (omega arith)

native_int_lem :
    (x : ℕ)
    → x < 2 ^ 31
    → x % 2 ^ 8
        + x / 2 ^ 8 % 2 ^ 8 * 2 ^ 8
        + x / 2 ^ 16 % 2 ^ 8 * 2 ^ 16
        + x / 2 ^ 24 % 2 ^ 8 * 2 ^ 24
      ≡ x
native_int_lem x h = omega arith

-- A buffer of any bytes, of which the length is given as it is, that is sent on an open pipe of its type
-- leaves in one write(). A receiver on an open pipe of the type that reads the first four bytes and then
-- the rest gets the same length, and the same bytes if there are any.
pub msg_buffer_round_trip :
    (bytes memory : List ℕ) (into : MsgBuffer) (out inp : TypedPipe)
    → out.type ≡ msg_buffer
    → out.fd_out ≢ 0
    → inp.type ≡ msg_buffer
    → inp.fd_in ≢ 0
    → length bytes < 2 ^ 31
    → length memory ≡ length bytes
    → (header : List ℕ) × (comm_send_msg_buffer out
          (record { length_field = length bytes; message = bytes })
        ≡ write_to out.fd_out (header ++ bytes) ∷ [])
      × (length header ≡ 4)
      × ((comm_recv_msg_buffer (got header) (got bytes) memory inp into).1
          ≡ record { length_field = length bytes; message = bytes })
unfolding comm_send_msg_buffer comm_recv_msg_buffer
msg_buffer_round_trip bytes memory into out inp out_msg out_open inp_msg inp_open fits room =
    let out_set : (out.fd_out == 0) ≡ false = ground arith in
    let inp_set : (inp.fd_in == 0) ≡ false = ground arith in
    let not_negative : ltb (length bytes) (2 ^ 31) ≡ true = ground arith in
    (
      native_bytes (length bytes),
      rw (out_set, out_msg, take-whole bytes) refl,
      refl,
      rw (inp_set, inp_msg, native_int_lem (length bytes) fits, not_negative)
          (elim (lt-cases 0 (length bytes)) [
            | inl (some_byte, _) ↦ rw (some_byte, write_at-whole memory bytes room) refl
            | inr (no_byte, none) ↦ rw (no_byte, both_empty memory bytes room (omega arith)) refl
          ]),
    )
