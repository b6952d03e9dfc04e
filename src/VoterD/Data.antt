-- ===== src/VoterD/Data.antt =====
-- voter/voterd.c: data go to the replicas (`processData`), and a replica's output leaves the voter
-- (`sendPipe`).
use s3res.Prelude.{
  ℕ, true, false, none, some, List, [], ◌∷◌, ◌||◌, get_or, take, ◌==◌, for_range, if◌then◌else◌,
}
use s3res.Sys.{write_to}
use s3res.VoteBuff.{VotePipe, fake_to_pipe, buff_to_pipe}
use s3res.Replicas.{Fleet, vot_of, change_vot, call}
use s3res.Replicas.Count.{bytes_ready}
use s3res.Replicas.Balance.{balance_reps}
use s3res.Runs.{Run, running, broken, for_run}
use s3res.VoterD.{Desktop, World, ext_of, on_fleet}

-- `if (!timer_started) ...`, on one of the two arrays of timed pipes.
unfoldable pub start_timer : List ℕ → ℕ → Desktop → Desktop
start_timer timed p d =
    if d.timer_started
    then d
    else if p == get_or timed 0 0
    then record d { current_timer = 0; timer_started = true }
    else if p == get_or timed 1 0
    then record d { current_timer = 1; timer_started = true }
    else d

-- `writeBuffer`: whatever write() answers, the program goes on.
unfoldable pub write_buffer : ℕ → List ℕ → Fleet → Fleet
write_buffer fd_out buffer f = call (write_to fd_out buffer ∷ []) f

-- A count of -1, after a failed read(), is 0 here: a write() of it writes nothing.
unfoldable pub process_data : World → VotePipe → ℕ → Desktop → Desktop
process_data w pipe p d =
    on_fleet
      (λ f.
        for_range d.rep_count 0
          (λ r u. write_buffer (vot_of u.reps r p).fd_out (take pipe.buff_count pipe.buffer) u)
          (balance_reps w.kernel d.rep_count d.replica_priority f))
      (start_timer d.timer_start_index p d)

-- One round of the loop of `sendPipe`.
unfoldable pub send_round : ℕ → ℕ → ℕ → ℕ → Desktop → Run Desktop
send_round p replica_num bytes_avail r d =
    let pipe = vot_of d.fleet.reps r p in
    if replica_num == r
    then elim (buff_to_pipe pipe (ext_of d p).fd_out bytes_avail) [
      | none ↦ broken
      | some (_, written, sent) ↦
          running
            (on_fleet (λ f. call written (record f { reps = change_vot f.reps r p (λ _. sent) })) d)
    ]
    else elim (fake_to_pipe pipe bytes_avail) [
      | none ↦ broken
      | some dropped ↦
          running (on_fleet (λ f. record f { reps = change_vot f.reps r p (λ _. dropped) }) d)
    ]

-- The timer is off when the output of a timed pipe is sent.
abbrev pub stop_timer : ℕ → Desktop → Desktop
stop_timer p d = record d {
  timer_started =
      if p == get_or d.timer_stop_index 0 0 || p == get_or d.timer_stop_index 1 0
      then false
      else d.timer_started;
}

unfoldable pub send_pipe : ℕ → ℕ → Desktop → Run Desktop
send_pipe p replica_num d =
    let bytes_avail = bytes_ready d.fleet.reps d.rep_count p in
    if bytes_avail == 0
    then running d
    else for_run d.rep_count 0 (send_round p replica_num bytes_avail) (stop_timer p d)
