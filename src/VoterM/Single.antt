-- ===== src/VoterM/Single.antt =====
-- voter/voterm.c as it is compiled for SINGLE_CORE: `sendCollect`, which lets the replicas run one
-- after the other, and the turn of the loop in `main` that uses it.
use s3res.Prelude.{
  ℕ, zero, suc, ◌+◌, Bool, true, false, Option, none, some, List, [], ◌∷◌, ◌++◌, ◌==◌, for_range,
  if◌then◌else◌,
}
use s3res.Prelude.Int.{ℤ, pos, ◌-ℤ◌, ltz}
use s3res.Sys.{Wake, write_to, set_policy, fd_isset}
use s3res.VoterM.State.{Voter, rep_at, fd_in_at, fd_out_at, update_rep, issue}
use s3res.VoterM.Input.{recv_data, check_wait_on_input, send_to_reps}
use s3res.VoterM.Collect.{Sweep, stop_pipe, store_read, collect_from_reps}
use s3res.VoterM.Recover.{Spawn, kill_and_clean, start_replicas}
use s3res.VoterM.Send.{send_data}
use s3res.VoterM.Turn.{Outcome, running, exited, waiting, recover, settle}
pub mod Count
pub mod Returns
pub mod Answered
pub mod Missing
pub mod OneLate

-- What the environment does during a turn. `answers r` are the sleeps that wait for replica `r`, and
-- `raised r` and `lowered r` say whether the changes of its priority succeed.
pub record SingleWorld : Type 0 where
  pub input : Wake
  pub answers : ℕ → List Wake
  pub raised : ℕ → Bool
  pub lowered : ℕ → Bool
  pub retry : List Wake
  pub spawn : Spawn

-- `sched_set_policy(replicas[r].pid, priority)`, and the assignments behind it.
unfoldable pub set_priority : Bool → ℕ → ℤ → Voter → Voter
set_priority succeeds r priority v =
    let asked = issue (set_policy (pos (rep_at v.replicas r).pid) priority ∷ []) v in
    if succeeds
    then record asked {
      replicas = update_rep v.replicas r (λ rep. record rep { priority = priority });
      for_reps = update_rep v.for_reps r (λ rep. record rep { priority = priority });
    }
    else asked

-- The descriptors of one replica that FD_SET puts in the set.
unfoldable pub own_fd_set : Voter → ℕ → List ℕ
own_fd_set v r = for_range v.out_pipe_count 0 (λ p fds. fds ++ (fd_out_at v.replicas r p ∷ [])) []

-- One pipe, after select().
unfoldable pub own_pipe : Voter → List ℕ → Wake → ℕ → ℕ → Sweep → Sweep
own_pipe v select_set w r p s =
    let fd = fd_out_at s.reps r p in
    let reps' = update_rep s.reps r (store_read (w.reads fd) p) in
    if fd_isset select_set w fd
    then if p == stop_pipe v
      then record { reps = reps'; rep_done = s.rep_done + 1; done = true }
      else record s { reps = reps' }
    else s

-- The loop `while (!done)` for replica `r`. `none`: the list of wakes has ended, and it still waits.
unfoldable pub own_loop : ℕ → List Wake → ℕ → Voter → Option (ℕ × Voter)
own_loop r [] done_count v = none
own_loop r (w ∷ ws) done_count v =
    let s =
      for_range v.out_pipe_count 0 (own_pipe v (own_fd_set v r) w r)
        (record { reps = v.replicas; rep_done = done_count; done = false }) in
    let v' = record v { replicas = s.reps } in
    let more = own_loop r ws s.rep_done v' in
    if ltz (pos w.elapsed) v.voting_timeout
    then if s.done then some (s.rep_done, v') else more
    else some (done_count, record v { timeout_occurred = true; fault_index = r })

-- The loop over the replicas, from `r` on.
unfoldable pub serve : SingleWorld → Bool → ℕ → ℕ → ℕ → ℕ → Voter → Option (ℕ × Voter)
serve w timed active zero r done_count v = some (done_count, v)
serve w timed active (suc n) r done_count v =
    let sent = issue (write_to (fd_in_at v.replicas r active) v.ext_in_bytes ∷ []) v in
    elim timed [
      | false ↦ serve w false active n (r + 1) done_count sent
      | true ↦
          elim (own_loop r (w.answers r) done_count
            (set_priority (w.raised r) r (v.voter_priority -ℤ pos 1) sent)) [
              | none ↦ none
              | some (count, u) ↦
                  serve w true active n (r + 1) count
                    (set_priority (w.lowered r) r (u.voter_priority -ℤ pos 4) u)
            ]
    ]

-- The number of responses; `none` inside for -1, where none is expected. It is called with an active
-- pipe only.
unfoldable pub send_collect : SingleWorld → Voter → Option (Option ℕ × Voter)
send_collect w v =
    let start = record v { timeout_occurred = false } in
    elim v.active_pipe_index [
      | none ↦ some (none, start)
      | some active ↦ elim (serve w (check_wait_on_input v) active v.rep_count 0 0 start) [
        | none ↦ none
        | some (count, u) ↦ some (if check_wait_on_input v then some count else none, u)
      ]
    ]

-- The branch for a timeout: `sendCollect` has set the index of the replica to blame.
unfoldable pub expire_single : SingleWorld → Voter → Outcome
expire_single w v =
    let cleaned = kill_and_clean v.fault_index v in
    if cleaned.rep_count == 1
    then elim (start_replicas w.spawn true 0 1 cleaned) [
      | none ↦ exited
      | some started ↦ elim (collect_from_reps false 1 w.retry (send_to_reps started).1) [
        | none ↦ waiting
        | some (_, v') ↦ running (send_data 0 v')
      ]
    ]
    else recover w.spawn cleaned

unfoldable pub turn_single : SingleWorld → Voter → Outcome
turn_single w v =
    let (received, v1) = recv_data w.input v in
    if received
    then elim (send_collect w v1) [
      | none ↦ waiting
      | some (none, v2) ↦ running v2
      | some (some reps_done, v2) ↦
          if reps_done == v2.rep_count then settle w.spawn v2 else expire_single w v2
    ]
    else running v1
