-- ===== src/VoterM/Send.antt =====
-- voter/voterm.c: the answers of one replica leave the voter (`sendData`).
use s3res.Prelude.{ℕ, List, [], ◌∷◌, set, get_or, take, length, ltb, ◌==◌, for_range, if◌then◌else◌}
use s3res.Sys.{Syscall, write_to, write_past}
use s3res.VoterM.State.{ReplicaR, Voter, count_at, buffer_at, update_rep, issue}
pub mod Props

-- `write(fd, buffer, count)`: the code does not look whether the buffer holds as many bytes.
unfoldable pub write_count : ℕ → List ℕ → ℕ → Syscall
write_count fd buffer count =
    if ltb (length buffer) count
    then write_past fd buffer count
    else write_to fd (take count buffer)

-- A count of 0 sends nothing.
unfoldable pub send_pipe : ℕ → ℕ → Voter → Voter
send_pipe rep_to_send p v =
    let count = count_at v.replicas rep_to_send p in
    if count == 0
    then v
    else issue
        (write_count (get_or v.ext_out_fds p 0) (buffer_at v.replicas rep_to_send p) count ∷ []) v

unfoldable pub reset_count : ℕ → ℕ → List ReplicaR → List ReplicaR
reset_count r p reps =
    update_rep reps r (λ rep. record rep { buff_counts = set rep.buff_counts p 0 })

unfoldable pub send_data : ℕ → Voter → Voter
send_data rep_to_send v =
    let sent = for_range v.out_pipe_count 0 (send_pipe rep_to_send) v in
    record sent {
      replicas =
          for_range sent.rep_count 0
            (λ r reps. for_range sent.out_pipe_count 0 (reset_count r) reps) sent.replicas;
    }
