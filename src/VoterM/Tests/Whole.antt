-- ===== src/VoterM/Tests/Whole.antt =====
-- A whole turn with three replicas, of which the third answers with a wrong byte.
use s3res.Prelude.{
  ℕ, zero, suc, ◌<◌, ◌≡◌, refl, true, Bool-cases, inl, inr, length, ◌≤◌, some, List, [], ◌∷◌, ◌++◌,
  ◌==◌, if◌then◌else◌, write_at, for_range, arith,
}
use s3res.Sys.{Wake, got, write_to, fd_set_has}
use s3res.VoterM.State.{ReplicaR, Voter}
use s3res.VoterM.Input.{recv_data, recv_scan, check_wait_on_input, send_to_reps}
use s3res.VoterM.Input.Props.{inputs}
use s3res.VoterM.Collect.{
  collect_from_reps, collect_loop, sweep, sweep_pipe, out_fd_set, store_read,
}
use s3res.VoterM.Collect.Bounds.{ReadsOk, RepsAreValid, at_end, next}
use s3res.VoterM.Vote.Blame.{OthersAgree}
use s3res.VoterM.Turn.{World, turn}
use s3res.VoterM.Turn.Masking.{all_answers, Delivers}
use s3res.VoterM.Turn.Whole.{turn_masks}
use s3res.VoterM.Tests.{rep_with, voter_of, storage, spawning, spawning-Responsive}
use s3res.VoterM.Tests.Stages.{full_rep-IsValid}

abbrev start : Voter
start = voter_of (rep_with 0 [] storage ∷ rep_with 1 [] storage ∷ rep_with 2 [] storage ∷ [])

-- The third replica's output pipe is the descriptor 22.
abbrev answering : Wake
answering = record {
  elapsed = 100;
  woken = true;
  ready = λ _. true;
  reads = λ fd. if fd == 22 then got (7 ∷ 9 ∷ []) else got (7 ∷ 8 ∷ []);
}

abbrev whole_world : World
whole_world = record { input = answering; answers = answering ∷ []; retry = []; spawn = spawning }

abbrev rep_after : ℕ → List ℕ → ReplicaR
rep_after k bytes = record (rep_with k [] storage) {
  buff_counts = 2 ∷ [];
  buffers = write_at storage 0 bytes ∷ [];
}

abbrev answered : Voter
answered = record start {
  replicas = rep_after 0 (7 ∷ 8 ∷ []) ∷ rep_after 1 (7 ∷ 8 ∷ []) ∷ rep_after 2 (7 ∷ 9 ∷ []) ∷ [];
  ext_in_bytes = 7 ∷ 8 ∷ [];
  calls = write_to 10 (7 ∷ 8 ∷ []) ∷ write_to 11 (7 ∷ 8 ∷ []) ∷ write_to 12 (7 ∷ 8 ∷ []) ∷ [];
}

received : (recv_data answering start).0 ≡ true
unfolding recv_data recv_scan fd_set_has
received = refl

chosen : (recv_data answering start).1.active_pipe_index ≡ some 0
unfolding recv_data recv_scan fd_set_has
chosen = refl

timed : check_wait_on_input (recv_data answering start).1 ≡ true
unfolding recv_data recv_scan fd_set_has check_wait_on_input for_range
timed = refl

collected :
    collect_from_reps true
      (send_to_reps (recv_data answering start).1).1.rep_count
      (answering ∷ [])
      (send_to_reps (recv_data answering start).1).1
    ≡ some (3, answered)
unfolding recv_data recv_scan fd_set_has check_wait_on_input for_range send_to_reps
    collect_from_reps collect_loop sweep sweep_pipe out_fd_set store_read
collected = refl

reads : ReadsOk (answering ∷ [])
reads = next ok at_end
  where
    ok : (fd : ℕ) → (bytes : List ℕ) × (answering.reads fd ≡ got bytes) × (length bytes ≤ 4096)
    ok fd = elim (Bool-cases (fd == 22)) [
      | inl e ↦ (7 ∷ 9 ∷ [], rw e refl, omega arith)
      | inr e ↦ (7 ∷ 8 ∷ [], rw e refl, omega arith)
    ]

valid : RepsAreValid 3 1 start.replicas
valid zero h = full_rep-IsValid 0
valid (suc zero) h = full_rep-IsValid 1
valid (suc (suc zero)) h = full_rep-IsValid 2
valid (suc (suc (suc r))) h = absurd (omega arith)

agree : (p : ℕ) → p < 1 → OthersAgree answered.replicas 2 p
agree (suc p) h r s r_in s_in r_ne s_ne = absurd (omega arith)
agree zero h zero zero _ _ _ _ = (refl, refl)
agree zero h zero (suc zero) _ _ _ _ = (refl, refl)
agree zero h (suc zero) zero _ _ _ _ = (refl, refl)
agree zero h (suc zero) (suc zero) _ _ _ _ = (refl, refl)
agree zero h (suc (suc r)) s r_in s_in r_ne s_ne = absurd (omega arith)
agree zero h zero (suc (suc s)) r_in s_in r_ne s_ne = absurd (omega arith)
agree zero h (suc zero) (suc (suc s)) r_in s_in r_ne s_ne = absurd (omega arith)

turn_masks_example :
    Delivers start
      (inputs (recv_data answering start).1 0 3 0 ++ all_answers answered 1)
      (turn whole_world start)
turn_masks_example =
    turn_masks whole_world start 0 3 2 1 answered received chosen timed collected refl reads
      spawning-Responsive refl valid (omega arith) (omega arith) (omega arith) agree
