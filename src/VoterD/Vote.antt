-- ===== src/VoterD/Vote.antt =====
-- voter/voterd.c: the vote on a pipe (`checkSDC`), and a replica's output comes in
-- (`processFromRep`).
use s3res.Prelude.{ℕ, zero, suc, ◌+◌, ◌%◌, List, ◌==◌, if◌then◌else◌}
use s3res.Sys.{ok, error, differs}
use s3res.VoteBuff.{pipe_to_buff, compare_buffs}
use s3res.VoteBuff.RepType.{unreplicated, smr, dmr, tmr, rep_type_error}
use s3res.Replicas.{Replica, vot_of, change_vot, now}
use s3res.Replicas.Count.{bytes_ready}
use s3res.Replicas.Balance.{balance_reps}
use s3res.Runs.{Run, running}
use s3res.VoterD.{Desktop, World, on_fleet}
use s3res.VoterD.Data.{start_timer, send_pipe}
use s3res.VoterD.Recover.{restart_prep}

-- What the branch for three replicas decides: the output of one is sent, or one is replaced from
-- another, or nothing.
pub data Choice : Type 0 where
  nobody : Choice
  send : ℕ → Choice
  replace : ℕ → ℕ → Choice

-- The loop over the replicas, from `r` on.
unfoldable pub tmr_choice : List Replica → ℕ → ℕ → ℕ → ℕ → ℕ → Choice
tmr_choice reps rep_count p bytes_avail zero r = nobody
tmr_choice reps rep_count p bytes_avail (suc n) r =
    let rest = tmr_choice reps rep_count p bytes_avail n (r + 1) in
    let cmp =
      λ (s : ℕ). compare_buffs (vot_of reps r p) (vot_of reps (s % rep_count) p) bytes_avail in
    if differs (cmp (r + 1))
    then rest
    else if differs (cmp (r + 2))
    then replace ((r + 2) % rep_count) r
    else send r

-- Two replicas that differ are reported only. A `replace` sends as part of the restart.
unfoldable pub check_sdc : World → ℕ → Desktop → Run Desktop
check_sdc w p d =
    let bytes_avail = bytes_ready d.fleet.reps d.rep_count p in
    if bytes_avail == 0 then running d else elim d.rep_type [
      | smr ↦ send_pipe p 0 d
      | dmr ↦ send_pipe p 0 d
      | tmr ↦ elim (tmr_choice d.fleet.reps d.rep_count p bytes_avail d.rep_count 0) [
        | nobody ↦ running d
        | send r ↦ send_pipe p r d
        | replace restartee restarter ↦ restart_prep w restartee restarter d
      ]
      | unreplicated ↦ running d
      | rep_type_error ↦ running d
    ]

unfoldable pub process_from_rep : World → ℕ → ℕ → Desktop → Run Desktop
process_from_rep w replica_num p d =
    let started = start_timer d.timer_stop_index p d in
    let pipe = vot_of started.fleet.reps replica_num p in
    let (status, filled) = pipe_to_buff (w.read (now started.fleet) pipe.fd_in) pipe in
    let stored =
      on_fleet (λ f. record f { reps = change_vot f.reps replica_num p (λ _. filled) }) started in
    let voted =
      check_sdc w p
        (on_fleet (λ f. balance_reps w.kernel stored.rep_count stored.replica_priority f) stored) in
    elim status [ ok ↦ voted | error ↦ running stored ]
