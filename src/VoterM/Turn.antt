-- ===== src/VoterM/Turn.antt =====
-- voter/voterm.c: one turn of the loop in `main`, as it is compiled for QUAD_CORE.
use s3res.Prelude.{ℕ, Bool, true, false, Option, none, some, List, ◌==◌, if◌then◌else◌}
use s3res.Sys.{Wake}
use s3res.VoterM.State.{Voter}
use s3res.VoterM.Input.{recv_data, send_to_reps}
use s3res.VoterM.Collect.{collect_from_reps, find_fault_replica}
use s3res.VoterM.Recover.{Spawn, kill_and_clean, start_replicas, neighbour}
use s3res.VoterM.Vote.{check_sdc}
use s3res.VoterM.Send.{send_data}
pub mod Masking
pub mod Timeout
pub mod Whole

-- What the environment does during a turn: the sleep that waits for input, those that wait for the
-- answers and for those of a restarted SMR replica, and what the calls of a restart answer.
pub record World : Type 0 where
  pub input : Wake
  pub answers : List Wake
  pub retry : List Wake
  pub spawn : Spawn

-- How a turn ends: the loop goes on, the process exits, or it still waits for answers.
pub data Outcome : Type 0 where
  running : Voter → Outcome
  exited : Outcome
  waiting : Outcome

-- The branches after a restart of the replica blamed: the neighbour's answers are sent.
unfoldable pub recover : Spawn → Voter → Outcome
recover s v = elim (start_replicas s false v.fault_index 1 v) [
  | none ↦ exited
  | some v' ↦ running (send_data (neighbour v') v')
]

-- The branch for answers that all came in time.
unfoldable pub settle : Spawn → Voter → Outcome
settle s v = let (sdc, v') = check_sdc v in if sdc then recover s v' else running (send_data 0 v')

-- A replica without replication is started anew, is given the input again, and may take its time.
unfoldable pub restart_smr : World → Voter → Outcome
restart_smr w v = elim (start_replicas w.spawn true 0 1 v) [
  | none ↦ exited
  | some started ↦ elim (collect_from_reps false 1 w.retry (send_to_reps started).1) [
    | none ↦ waiting
    | some (_, v') ↦ running (send_data (neighbour v') v')
  ]
]

-- The branch for a timeout.
unfoldable pub expire : World → Voter → Outcome
expire w v =
    let blamed = find_fault_replica v in
    let cleaned = kill_and_clean blamed.fault_index blamed in
    if cleaned.rep_count == 1 then restart_smr w cleaned else recover w.spawn cleaned

unfoldable pub turn : World → Voter → Outcome
turn w v =
    let (received, v1) = recv_data w.input v in
    let (expected, v2) = send_to_reps v1 in
    if received
    then if expected
      then elim (collect_from_reps true v2.rep_count w.answers v2) [
        | none ↦ waiting
        | some (_, v3) ↦ if v3.timeout_occurred then expire w v3 else settle w.spawn v3
      ]
      else running v2
    else running v1
