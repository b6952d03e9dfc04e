-- ===== src/VoterM/Vote.antt =====
-- voter/voterm.c: the vote (`checkSDC`).
use s3res.Prelude.{
  ℕ, ◌+◌, ◌-◌, ◌%◌, Bool, true, false, List, ltb, ◌==◌, not, for_range, if◌then◌else◌,
}
use s3res.Sys.{differs, memcmp}
use s3res.VoterM.State.{ReplicaR, Voter, count_at, buffer_at}
use s3res.VoterM.Recover.{kill_and_clean}
pub mod Agree
pub mod Scan
pub mod Detect
pub mod Blame

-- (fault, fault_index)
abbrev pub Verdict : Type 0
Verdict = Bool × ℕ

-- `memcmp(replicas[r].buffers[p], replicas[s].buffers[p], replicas[0].buff_counts[p]) != 0`
abbrev pub contents_differ : List ReplicaR → ℕ → ℕ → ℕ → Bool
contents_differ reps r s p =
    differs (memcmp (buffer_at reps r p) (buffer_at reps s p) (count_at reps 0 p))

unfoldable pub dmr_round : List ReplicaR → ℕ → Verdict → Verdict
dmr_round reps p verdict =
    let c0 = count_at reps 0 p in
    let c1 = count_at reps 1 p in
    if c0 == c1
    then if contents_differ reps 0 1 p then (true, 0) else verdict
    else (true, if ltb c0 c1 then 0 else 1)

unfoldable pub tmr_count_round : List ReplicaR → ℕ → Verdict → Verdict
tmr_count_round reps p verdict =
    let c0 = count_at reps 0 p in
    let c1 = count_at reps 1 p in
    let c2 = count_at reps 2 p in
    if c0 == c1
    then if c0 == c2 then verdict else (true, 2)
    else if c0 == c2
    then (true, 1)
    else (true, 0)

unfoldable pub tmr_content_round : List ReplicaR → ℕ → Verdict → Verdict
tmr_content_round reps p verdict =
    if contents_differ reps 0 1 p
    then if contents_differ reps 0 2 p then (true, 0) else (true, 1)
    else if contents_differ reps 0 2 p
    then (true, 2)
    else verdict

unfoldable pub dmr_verdict : List ReplicaR → ℕ → ℕ → Verdict
dmr_verdict reps pipes fault_index = for_range pipes 0 (dmr_round reps) (false, fault_index)

unfoldable pub tmr_verdict : List ReplicaR → ℕ → ℕ → Verdict
tmr_verdict reps pipes fault_index =
    let counted = for_range pipes 0 (tmr_count_round reps) (false, fault_index) in
    if counted.0 then counted else for_range pipes 0 (tmr_content_round reps) counted

-- The switch on the number of replicas.
unfoldable pub verdict : Voter → Verdict
verdict v =
    if v.rep_count == 2
    then dmr_verdict v.replicas v.out_pipe_count v.fault_index
    else if v.rep_count == 3
    then tmr_verdict v.replicas v.out_pipe_count v.fault_index
    else (false, v.fault_index)

-- `true` if a silent data corruption was found; the replica blamed is then killed.
unfoldable pub check_sdc : Voter → Bool × Voter
check_sdc v =
    let (fault, index) = verdict v in
    let judged = record v { fault_index = index } in
    if fault then (true, kill_and_clean index judged) else (false, judged)
