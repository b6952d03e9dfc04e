-- ===== src/VoterD/Tests.antt =====
-- The theorems on voterd.c at three replicas with one pipe each.
use s3res.Prelude.{
  false, ℕ, zero, suc, ◌+◌, ◌<◌, ◌≡◌, ◌≢◌, ◌⊎◌, refl, true, some, [], ◌∷◌, ◌++◌, length-replicate,
  replicate, take, drop, arith, for_range,
}
use s3res.Prelude.Int.{pos}
use s3res.Sys.{Wake, got, write_to}
use s3res.VoteBuff.{VotePipe}
use s3res.VoteBuff.Ring.{contents}
use s3res.VoteBuff.RepType.{tmr}
use s3res.Replicas.{Replica, vot_of}
use s3res.Replicas.Count.{bytes_ready}
use s3res.Replicas.Valid.{PipesAreValid, FleetIsValid}
use s3res.VoterD.{Desktop, World, ext_of}
use s3res.VoterD.Data.{send_pipe}
use s3res.VoterD.Recover.{restart_prep, hand_over}
use s3res.VoterD.Twins.{Twins, hand_over-Twins}
use s3res.VoterD.Vote.{check_sdc}
use s3res.VoterD.Update.{main_loop}
use s3res.Runs.{for_run, Ends}
use s3res.VoterD.Send.{Stops, send_pipe_lem}
use s3res.VoterD.Majority.{OthersAgree}
use s3res.VoterD.Masking.{Sends, check_sdc_masks}
use s3res.VoterD.Valid.{Fine}
use s3res.VoterD.Valid.Turn.{main_loop-Fine}

-- A pipe from a replica, with bytes `b` that go round the end of the buffer.
abbrev pipe_of : ℕ → ℕ → ℕ → VotePipe
pipe_of fd_in b count = record {
  rep_info = "MOV_CMD";
  fd_in = fd_in;
  fd_out = 0;
  timed = true;
  buff_count = count;
  buff_index = 4090;
  buffer = replicate 4096 b;
}

abbrev rep_with : ℕ → ℕ → Replica
rep_with k b = record {
  pid = pos (100 + k);
  priority = pos 15;
  pinned_cpu = pos (k + 1);
  name = "Filter";
  pipe_count = 1;
  vot_pipes = pipe_of 7 b 9 ∷ [];
  voter_rep_in_copy = 0 ∷ [];
  rep_pipes = pipe_of 0 b 0 ∷ [];
}

-- The last of the three replicas holds other bytes.
abbrev voter : Desktop
voter = record {
  voting_timeout = pos 4000;
  current_timer = 0;
  timer_start_index = 1 ∷ 0 ∷ [];
  timer_stop_index = 0 ∷ 0 ∷ [];
  timer_started = true;
  fleet = record { reps = rep_with 0 9 ∷ rep_with 0 9 ∷ rep_with 2 8 ∷ []; calls = [] };
  voter_priority = pos 20;
  replica_priority = pos 15;
  rep_type = tmr;
  rep_count = 3;
  controller_name = "Filter";
  pipe_count = 1;
  ext_pipes = pipe_of 0 0 0 ∷ [];
}

abbrev quiet : Wake
quiet = record { elapsed = 5000; woken = true; ready = λ _. true; reads = λ _. got (1 ∷ 2 ∷ []) }

abbrev world : World
world = record {
  kernel = record {
    policy_set = λ _. true;
    fork = λ _. pos 200;
    pipe = λ _ _ p. some (30, 31);
    client = λ _. record { accepted = true; sent = true; pid = some 200 };
  };
  read = λ _ _. got (1 ∷ []);
  steal = λ _. quiet;
}

rep_with-valid : (k b : ℕ) → PipesAreValid (rep_with k b)
rep_with-valid k b zero h = record {
  storage = length-replicate {A = ℕ} 4096 b;
  index_in = omega arith;
  count_in = omega arith;
}
rep_with-valid k b (suc p) h = absurd (omega arith)

rings : FleetIsValid voter.fleet.reps
rings zero h = rep_with-valid 0 9
rings (suc zero) h = rep_with-valid 0 9
rings (suc (suc zero)) h = rep_with-valid 2 8
rings (suc (suc (suc r))) h = absurd (omega arith)

nine_ready : bytes_ready voter.fleet.reps 3 0 ≡ 9
unfolding bytes_ready for_range
nine_ready = refl

some_ready : 0 < bytes_ready voter.fleet.reps 3 0
some_ready = omega (arith, nine_ready)

agree : OthersAgree voter.fleet.reps 0 (bytes_ready voter.fleet.reps 3 0) 2
agree zero zero h k l m = (refl, refl)
agree zero (suc zero) h k l m = (refl, refl)
agree zero (suc (suc s)) h k l m = absurd (omega arith)
agree (suc zero) zero h k l m = (refl, refl)
agree (suc zero) (suc zero) h k l m = (refl, refl)
agree (suc zero) (suc (suc s)) h k l m = absurd (omega arith)
agree (suc (suc r)) s h k l m = absurd (omega arith)

check_sdc_masks_example :
    Sends 0 1 voter (check_sdc world 0 voter)
    ⊎ ((b : ℕ) × (b < 3) × (b ≢ 2) × (check_sdc world 0 voter ≡ restart_prep world 2 b voter))
check_sdc_masks_example =
    check_sdc_masks world 0 2 1 voter refl refl rings (omega arith) (omega arith) (omega arith)
      some_ready agree

send_pipe_lem_example :
    let n = bytes_ready voter.fleet.reps 3 0 in
    Ends ⊥
      (λ u.
        (u.fleet.calls
          ≡ voter.fleet.calls
            ++ (write_to (ext_of voter 0).fd_out (take n (contents (vot_of voter.fleet.reps 1 0)))
                ∷ []))
        × ((r : ℕ)
            → r < 3
            → contents (vot_of u.fleet.reps r 0) ≡ drop n (contents (vot_of voter.fleet.reps r 0)))
        × ((r q : ℕ) → q ≢ 0 → vot_of u.fleet.reps r q ≡ vot_of voter.fleet.reps r q)
        × (Stops voter 0 → u.timer_started ≡ false)
        × (¬ Stops voter 0 → u.timer_started ≡ voter.timer_started))
      (send_pipe 0 1 voter)
send_pipe_lem_example = send_pipe_lem 0 1 voter rings some_ready (omega arith)

main_loop-Fine_example : Fine (main_loop ((world, quiet) ∷ (world, quiet) ∷ []) voter)
main_loop-Fine_example = main_loop-Fine ((world, quiet) ∷ (world, quiet) ∷ []) voter rings

hand_over-Twins_example :
    Ends ⊥
      (λ u.
        (i : ℕ)
        → i < 1
        → (vot_of voter.fleet.reps 0 i).fd_in ≢ 0
        → Twins (vot_of u.fleet.reps 2 i) (vot_of u.fleet.reps 0 i))
      (for_run 1 0 (hand_over 2 0) voter)
hand_over-Twins_example =
    hand_over-Twins 2 0 1 voter (omega arith) (omega arith) (omega arith) rings
      (λ i below. rep_with-valid 2 8 i below)
