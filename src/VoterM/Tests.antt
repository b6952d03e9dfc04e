-- ===== src/VoterM/Tests.antt =====
-- Runs of the voter on small states, and the theorems at concrete data.
use s3res.Prelude.{
  ℕ, zero, suc, ◌+◌, ◌<◌, ◌≤◌, ◌≡◌, ◌≢◌, ◌↔◌, ◌⊎◌, refl, true, false, none, some, List, [], ◌∷◌,
  ◌++◌, length, length-replicate, replicate, get_or, map, arith,
}
use s3res.Prelude.Int.{pos, negsuc, ltz}
use s3res.Sys.{got, Wake, send_fds}
use s3res.CommTypes.{TypedPipe}
use s3res.VoterM.State.{ReplicaR, Voter, count_at, issue}
use s3res.VoterM.FdServer.{send_fds_call}
use s3res.VoterM.FdServer.Message.{its_fd, send_fds_call-matches}
use s3res.VoterM.Input.{recv_data, send_to_reps}
use s3res.VoterM.Input.Props.{inputs, FirstInput, SilentTo, recv_data-FirstInput, send_to_reps_lem}
use s3res.VoterM.Collect.{collect_from_reps, find_fault_replica}
use s3res.VoterM.Collect.Blame.{
  AllOutput, Lowest, find_fault_replica-Lowest, find_fault_replica-unresponsive,
}
use s3res.VoterM.Collect.Bounds.{
  RepIsValid, RepsAreValid, ReadsOk, at_end, next, SameShape, collect_from_reps-IsValid,
}
use s3res.VoterM.Collect.Done.{collect_from_reps-timeout_iff, collect_from_reps-returns}
use s3res.VoterM.Recover.{Spawn, priority_arg, pipe_count_arg, kill_and_clean}
use s3res.VoterM.Recover.Argv.{atoi, atoi-priority_arg, atoi-priority_arg_negative}
use s3res.VoterM.Recover.Kill.{Killed, kill_and_clean-Killed}
use s3res.VoterM.Recover.Start.{Responsive}
use s3res.VoterM.Vote.{dmr_verdict, tmr_verdict}
use s3res.VoterM.Vote.Agree.{Agree, CountsFit}
use s3res.VoterM.Vote.Blame.{OthersAgree, Blames, tmr_verdict-Blames}
use s3res.VoterM.Vote.Detect.{dmr_verdict_iff, tmr_verdict_iff}
use s3res.VoterM.Send.{send_data}
use s3res.VoterM.Send.Props.{answers, AnswersFit, send_data_lem}
use s3res.VoterM.Turn.{World, settle, expire}
use s3res.VoterM.Turn.Masking.{all_answers, Delivers, settle_masks}
use s3res.VoterM.Turn.Timeout.{expire_masks}
mod Stages
mod Single
mod Whole

-- A replica with one input pipe and one output pipe, on which it has answered.
abbrev rep_with : ℕ → List ℕ → List ℕ → ReplicaR
rep_with k bytes rest = record {
  pinned_cpu = pos 1;
  priority = pos 20;
  pid = 100 + k;
  in_pipe_count = 1;
  fd_ins = (10 + k) ∷ [];
  out_pipe_count = 1;
  fd_outs = (20 + k) ∷ [];
  buff_counts = length bytes ∷ [];
  buffers = (bytes ++ rest) ∷ [];
}

abbrev voter_of : List ReplicaR → Voter
voter_of reps = record {
  voting_timeout = pos 4000;
  indexed_pipes = 1;
  timer_start_index = 0 ∷ [];
  timer_stop_index = 0 ∷ [];
  replicas = reps;
  for_reps = reps;
  voter_priority = pos 24;
  rep_count = length reps;
  controller_name = "Filter";
  in_pipe_count = 1;
  out_pipe_count = 1;
  ext_in_fds = 3 ∷ [];
  rep_info_in = "RANGE_POSE_DATA" ∷ [];
  ext_in_bytes = 5 ∷ 6 ∷ [];
  ext_out_fds = 4 ∷ [];
  rep_info_out = "RANGE_POSE_DATA" ∷ [];
  active_pipe_index = some 0;
  timeout_occurred = false;
  fault_index = 0;
  calls = [];
}

-- The third replica has answered with a wrong byte.
abbrev flipped : Voter
flipped =
    voter_of
      (rep_with 0 (1 ∷ 2 ∷ []) [] ∷ rep_with 1 (1 ∷ 2 ∷ []) [] ∷ rep_with 2 (1 ∷ 3 ∷ []) [] ∷ [])

-- The second has not answered.
abbrev frozen : Voter
frozen = voter_of (rep_with 0 (1 ∷ []) [] ∷ rep_with 1 [] [] ∷ rep_with 2 (1 ∷ []) [] ∷ [])

-- No replica has answered; the buffers have their full sizes.
abbrev storage : List ℕ
storage = replicate 4096 0

abbrev idle : Voter
idle = voter_of (rep_with 0 [] storage ∷ rep_with 1 [] storage ∷ [])

abbrev spawning : Spawn
spawning = record {
  pipe_in = λ _ p. some (30 + p, 40 + p);
  pipe_out = λ _ p. some (50 + p, 60 + p);
  client = λ r. record { accepted = true; sent = true; pid = some (200 + r) };
}

spawning-Responsive : Responsive spawning
spawning-Responsive r = (refl, refl, (200 + r, refl))

abbrev wake_at : ℕ → Wake
wake_at t = record { elapsed = t; woken = true; ready = λ _. true; reads = λ _. got (7 ∷ 8 ∷ []) }

abbrev world : World
world = record { input = wake_at 0; answers = []; retry = []; spawn = spawning }

flipped-CountsFit : CountsFit flipped.replicas 3
flipped-CountsFit zero zero h = omega arith
flipped-CountsFit (suc zero) zero h = omega arith
flipped-CountsFit (suc (suc zero)) zero h = omega arith
flipped-CountsFit zero (suc p) h = omega arith
flipped-CountsFit (suc zero) (suc p) h = omega arith
flipped-CountsFit (suc (suc zero)) (suc p) h = omega arith
flipped-CountsFit (suc (suc (suc r))) p h = absurd (omega arith)

flipped-OthersAgree : (p : ℕ) → p < 1 → OthersAgree flipped.replicas 2 p
flipped-OthersAgree (suc p) h r s r_in s_in r_ne s_ne = absurd (omega arith)
flipped-OthersAgree zero h zero zero _ _ _ _ = (refl, refl)
flipped-OthersAgree zero h zero (suc zero) _ _ _ _ = (refl, refl)
flipped-OthersAgree zero h (suc zero) zero _ _ _ _ = (refl, refl)
flipped-OthersAgree zero h (suc zero) (suc zero) _ _ _ _ = (refl, refl)
flipped-OthersAgree zero h (suc (suc r)) s r_in s_in r_ne s_ne = absurd (omega arith)
flipped-OthersAgree zero h zero (suc (suc s)) r_in s_in r_ne s_ne = absurd (omega arith)
flipped-OthersAgree zero h (suc zero) (suc (suc s)) r_in s_in r_ne s_ne = absurd (omega arith)

settle_masks_example : Delivers flipped (all_answers flipped 0) (settle spawning flipped)
settle_masks_example =
    settle_masks spawning flipped 2 0 spawning-Responsive refl flipped-CountsFit (omega arith)
      (omega arith) (omega arith) flipped-OthersAgree

tmr_verdict_iff_example :
    ((tmr_verdict flipped.replicas 1 0).0 ≡ false)
    ↔ ((p : ℕ) → p < 1 → Agree flipped.replicas 0 1 p × Agree flipped.replicas 0 2 p)
tmr_verdict_iff_example = tmr_verdict_iff flipped.replicas 1 0 flipped-CountsFit

tmr_verdict-Blames_example : Blames 2 (tmr_verdict flipped.replicas 1 0)
tmr_verdict-Blames_example =
    tmr_verdict-Blames flipped.replicas 2 1 0 (omega arith) flipped-CountsFit flipped-OthersAgree

two-CountsFit : CountsFit flipped.replicas 2
two-CountsFit r p h = flipped-CountsFit r p (omega arith)

frozen-AllOutput : (r : ℕ) → r < 3 → r ≢ 1 → AllOutput frozen r 1
frozen-AllOutput zero h ne zero k = omega arith
frozen-AllOutput (suc zero) h ne p k = absurd (ne refl)
frozen-AllOutput (suc (suc zero)) h ne zero k = omega arith
frozen-AllOutput zero h ne (suc p) k = absurd (omega arith)
frozen-AllOutput (suc (suc zero)) h ne (suc p) k = absurd (omega arith)
frozen-AllOutput (suc (suc (suc r))) h ne p k = absurd (omega arith)

frozen-AnswersFit : (r : ℕ) → r < 3 → r ≢ 1 → AnswersFit frozen.replicas r
frozen-AnswersFit zero h ne zero = omega arith
frozen-AnswersFit zero h ne (suc p) = omega arith
frozen-AnswersFit (suc zero) h ne p = absurd (ne refl)
frozen-AnswersFit (suc (suc zero)) h ne zero = omega arith
frozen-AnswersFit (suc (suc zero)) h ne (suc p) = omega arith
frozen-AnswersFit (suc (suc (suc r))) h ne p = absurd (omega arith)

expire_masks_example :
    (0 < 3) × (◌≢◌ {A = ℕ} 0 1) × Delivers frozen (all_answers frozen 0) (expire world frozen)
expire_masks_example =
    expire_masks world frozen 1 0 spawning-Responsive (omega arith) (omega arith) frozen-AllOutput
      frozen-AnswersFit (omega arith) refl
