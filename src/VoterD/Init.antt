-- ===== src/VoterD/Init.antt =====
-- voter/voterd.c: the voter is set up: the timed pipes (`parseArgs`), the replicas (`initVoterD`).
use s3res.Prelude.{ℕ, ◌+◌, none, some, set, ◌==◌, for_range, if◌then◌else◌}
use s3res.Prelude.Int.{pos, ◌-ℤ◌}
use s3res.VoteBuff.{VotePipe}
use s3res.Replicas.{Fleet, rep_of, change_vot}
use s3res.Replicas.Restart.{start_replicas}
use s3res.Runs.{Run, running, exited}
use s3res.VoterD.{Desktop, World, ext_of, on_fleet}

-- One round of the loop of `parseArgs` over the pipes: the next entry of an array of timed pipes.
-- The arrays have two entries each; an assignment behind them is lost here.
unfoldable pub index_timer : ℕ → ℕ × ℕ × Desktop → ℕ × ℕ × Desktop
index_timer i (c_in_pipe, c_out_pipe, d) =
    if (ext_of d i).timed
    then if (ext_of d i).fd_in == 0
      then (
        c_in_pipe,
        c_out_pipe + 1,
        record d { timer_stop_index = set d.timer_stop_index c_out_pipe i },
      )
      else (
        c_in_pipe + 1,
        c_out_pipe,
        record d { timer_start_index = set d.timer_start_index c_in_pipe i },
      )
    else (c_in_pipe, c_out_pipe, d)

unfoldable pub index_timers : Desktop → Desktop
index_timers d = (for_range d.pipe_count 0 index_timer (0, 0, d)).2

-- `read(fd, buffer, 0)` on an open descriptor: 0 is assigned to the count.
abbrev pub touch : VotePipe → VotePipe
touch pipe = if pipe.fd_in == 0 then pipe else record pipe { buff_count = 0 }

unfoldable pub touch_ext : Desktop → Desktop
touch_ext d =
    for_range d.pipe_count 0
      (λ p u. record u { ext_pipes = set u.ext_pipes p (touch (ext_of u p)) }) d

unfoldable pub touch_reps : ℕ → Fleet → Fleet
touch_reps num f =
    for_range num 0
      (λ r u.
        for_range (rep_of u.reps r).pipe_count 0
          (λ p t. record t { reps = change_vot t.reps r p touch }) u)
      f

-- The descriptor server's socket and the scheduling of the voter itself are left out.
unfoldable pub init_voter : World → Desktop → Run Desktop
init_voter w d =
    let replica_priority = d.voter_priority -ℤ pos 5 in
    elim (start_replicas w.kernel d.rep_count d.controller_name d.ext_pipes d.pipe_count
      replica_priority d.fleet) [
        | none ↦ exited
        | some started ↦ running (
            on_fleet (touch_reps d.rep_count)
              (touch_ext (record d { replica_priority = replica_priority; fleet = started })))
      ]
