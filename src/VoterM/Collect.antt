-- ===== src/VoterM/Collect.antt =====
-- voter/voterm.c: wait for the replicas' answers (`collectFromReps`), and find the one to blame when
-- they do not all come in time (`findFaultReplica`).
use s3res.Prelude.{
  ℕ, suc, ◌+◌, ◌-◌, ◌^◌, Bool, true, false, Option, none, some, List, [], ◌∷◌, ◌++◌, ◌&&◌, ◌||◌,
  not, length, set, get_or, write_at, ltb, ◌==◌, for_range, if◌then◌else◌,
}
use s3res.Prelude.Int.{ℤ, pos, ltz}
use s3res.Sys.{ReadResult, failed, got, Wake, fd_isset}
use s3res.VoterM.State.{ReplicaR, Voter, rep_at, count_at, buffer_at, fd_out_at, update_rep}
pub mod Steps
pub mod Bounds
pub mod Done
pub mod Blame

-- The descriptors that FD_SET puts in the set: the replicas' output pipes that are open.
unfoldable pub out_fd_set : Voter → List ℕ
out_fd_set v =
    for_range v.rep_count 0
      (λ r acc.
        for_range v.out_pipe_count 0
          (λ p fds. let fd = fd_out_at v.replicas r p in if fd == 0 then fds else fds ++ (fd ∷ []))
          acc)
      []

-- A read() into `buffers[p]`; its result is stored in an unsigned count, so -1 is 2^32 - 1.
unfoldable pub store_read : ReadResult → ℕ → ReplicaR → ReplicaR
store_read failed p r = record r { buff_counts = set r.buff_counts p (2 ^ 32 - 1) }
store_read (got bytes) p r = record r {
  buff_counts = set r.buff_counts p (length bytes);
  buffers = set r.buffers p (write_at (get_or r.buffers p []) 0 bytes);
}

-- the locals of the loop
pub record Sweep : Type 0 where
  pub reps : List ReplicaR
  pub rep_done : ℕ
  pub done : Bool

-- The pipe whose answer counts: `timer_stop_index[active_pipe_index]`.
abbrev pub stop_pipe : Voter → ℕ
stop_pipe v = elim v.active_pipe_index [
  | none ↦ 0
  | some active ↦ get_or v.timer_stop_index active 0
]

-- One pipe of one replica, after select().
unfoldable pub sweep_pipe : Voter → List ℕ → Wake → ℕ → ℕ → ℕ → Sweep → Sweep
sweep_pipe v select_set w expected r p s =
    let fd = fd_out_at s.reps r p in
    let reps' = update_rep s.reps r (store_read (w.reads fd) p) in
    if fd_isset select_set w fd
    then if p == stop_pipe v
      then record {
        reps = reps';
        rep_done = s.rep_done + 1;
        done = s.done || s.rep_done + 1 == expected;
      }
      else record s { reps = reps' }
    else s

unfoldable pub sweep : Voter → List ℕ → Wake → ℕ → Sweep → Sweep
sweep v select_set w expected s =
    for_range v.rep_count 0
      (λ r t. for_range v.out_pipe_count 0 (λ p u. sweep_pipe v select_set w expected r p u) t) s

-- The loop `while(!done)`: each `Wake` is one sleep in select(). `none`: the list of wakes has ended
-- and the voter still waits.
unfoldable pub collect_loop : Bool → ℕ → List Wake → ℕ → Voter → Option (ℕ × Voter)
collect_loop set_timer expected [] rep_done v = none
collect_loop set_timer expected (w ∷ ws) rep_done v =
    let s =
      sweep v (out_fd_set v) w expected
        (record { reps = v.replicas; rep_done = rep_done; done = false }) in
    let v' = record v { replicas = s.reps } in
    let more = collect_loop set_timer expected ws s.rep_done v' in
    if set_timer && not (ltz (pos w.elapsed) v.voting_timeout)
    then some (rep_done, record v { timeout_occurred = true })
    else if s.done
    then some (s.rep_done, v')
    else more

-- The answer is the number of responses on the timed pipe.
unfoldable pub collect_from_reps : Bool → ℕ → List Wake → Voter → Option (ℕ × Voter)
collect_from_reps set_timer expected ws v =
    collect_loop set_timer expected ws 0 (record v { timeout_occurred = false })

-- How many of a replica's pipes hold output.
unfoldable pub rep_score : Voter → ℕ → ℕ
rep_score v r =
    for_range v.out_pipe_count 0
      (λ p score. if ltb 0 (count_at v.replicas r p) then score + 1 else score) 0

-- One round of `findFaultReplica`, over (lowest_score, fault_index).
unfoldable pub fault_round : Voter → ℕ → ℕ × ℕ → ℕ × ℕ
fault_round v r (lowest, fault) =
    if ltb (rep_score v r) lowest then (rep_score v r, r) else (lowest, fault)

unfoldable pub find_fault_replica : Voter → Voter
find_fault_replica v = record v {
  fault_index = (for_range v.rep_count 0 (fault_round v) (v.out_pipe_count, 0)).1;
}
