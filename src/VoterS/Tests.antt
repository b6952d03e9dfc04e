-- ===== src/VoterS/Tests.antt =====
-- The theorem on voters.c at a replica with one pipe.
use s3res.Prelude.{ℕ, ◌≡◌, refl, true, some, [], ◌∷◌, ◌++◌, length-replicate, replicate, arith}
use s3res.Prelude.Int.{pos}
use s3res.Sys.{got, write_to}
use s3res.VoteBuff.{VotePipe}
use s3res.VoteBuff.Inv.{IsValid}
use s3res.VoteBuff.Ring.{contents}
use s3res.VoteBuff.RepType.{smr}
use s3res.Replicas.{vot_of}
use s3res.Runs.{Ends}
use s3res.VoterS.{Sequential, Answers, ext_pipe, process_from_rep}
use s3res.VoterS.Through.{process_from_rep_lem}

abbrev ring : VotePipe
ring = record {
  rep_info = "MSG_BUFFER";
  fd_in = 7;
  fd_out = 0;
  timed = true;
  buff_count = 0;
  buff_index = 4090;
  buffer = replicate 4096 9;
}

abbrev voter : Sequential
voter = record {
  last_dead = pos 0;
  fleet = record {
    reps =
        record {
          pid = pos 100;
          priority = pos 15;
          pinned_cpu = pos 1;
          name = "Load";
          pipe_count = 1;
          vot_pipes = ring ∷ [];
          voter_rep_in_copy = 0 ∷ [];
          rep_pipes = ring ∷ [];
        }
        ∷ [];
    calls = [];
  };
  voter_priority = pos 20;
  replica_priority = pos 15;
  rep_type = smr;
  rep_count = 1;
  controller_name = "Load";
  pipe_count = 1;
  ext_pipes = record ring { fd_in = 0; fd_out = 4 } ∷ [];
}

abbrev answers : Answers
answers = record {
  kernel = record {
    policy_set = λ _. true;
    fork = λ _. pos 200;
    pipe = λ _ _ p. some (30, 31);
    client = λ _. record { accepted = true; sent = true; pid = some 200 };
  };
  read = λ _ _. got (1 ∷ 2 ∷ 3 ∷ []);
}

ring-IsValid : IsValid ring
ring-IsValid = record {
  storage = length-replicate {A = ℕ} 4096 9;
  index_in = omega arith;
  count_in = omega arith;
}

process_from_rep_lem_example :
    Ends ⊥
      (λ u.
        (u.fleet.calls
          ≡ voter.fleet.calls ++ (write_to (ext_pipe voter 0).fd_out (1 ∷ 2 ∷ 3 ∷ []) ∷ []))
        × (contents (vot_of u.fleet.reps 0 0) ≡ [])
        × IsValid (vot_of u.fleet.reps 0 0))
      (process_from_rep answers 0 0 voter)
process_from_rep_lem_example =
    process_from_rep_lem answers 0 voter (1 ∷ 2 ∷ 3 ∷ []) refl refl ring-IsValid refl refl
      (omega arith) (omega arith)
