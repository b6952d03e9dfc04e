-- ===== src/Replicas/Tests.antt =====
-- The theorems on replicas.c at three replicas with one pipe each.
use s3res.Prelude.{
  ℕ, ◌+◌, ◌<◌, ◌≤◌, ◌≡◌, ◌↔◌, refl, true, false, some, List, [], ◌∷◌, ◌++◌, replicate, Bool, arith,
}
use s3res.Prelude.Int.{pos, negsuc}
use s3res.Sys.{Syscall, kill_pid, sigkill}
use s3res.VoteBuff.{VotePipe}
use s3res.Replicas.{Replica, Fleet, Kernel, rep_of, held, cleanup_replica}
use s3res.Replicas.Count.{bytes_ready}
use s3res.Replicas.Restart.{restart_replica}
use s3res.Replicas.Least.{bytes_ready_iff}
use s3res.Replicas.Process.{restart_replica-refused}

-- A pipe from a replica, with `count` bytes.
abbrev pipe_with : ℕ → VotePipe
pipe_with count = record {
  rep_info = "MOV_CMD";
  fd_in = 7;
  fd_out = 0;
  timed = true;
  buff_count = count;
  buff_index = 4090;
  buffer = replicate 4096 9;
}

abbrev rep_with : ℕ → ℕ → Replica
rep_with k count = record {
  pid = pos (100 + k);
  priority = pos 15;
  pinned_cpu = pos (k + 1);
  name = "Filter";
  pipe_count = 1;
  vot_pipes = pipe_with count ∷ [];
  voter_rep_in_copy = 0 ∷ [];
  rep_pipes = pipe_with 0 ∷ [];
}

-- The second replica is behind.
abbrev three : Fleet
three = record { reps = rep_with 0 9 ∷ rep_with 1 4 ∷ rep_with 2 9 ∷ []; calls = [] }

abbrev kernel_for : Bool → Kernel
kernel_for accepts = record {
  policy_set = λ _. true;
  fork = λ _. pos 200;
  pipe = λ _ _ p. some (30, 31);
  client = λ _. record { accepted = accepts; sent = true; pid = some 200 };
}

bytes_ready_iff_example :
    (4 ≤ bytes_ready three.reps 3 0) ↔ ((4 ≤ 4096) × ((r : ℕ) → r < 3 → 4 ≤ held three.reps r 0))
bytes_ready_iff_example = bytes_ready_iff three.reps 3 0 4

restart_replica-refused_example :
    let u = restart_replica (kernel_for false) 3 (pipe_with 0 ∷ []) 0 1 (pos 15) three in
    ((rep_of u.reps 1).pid ≡ negsuc 0)
    × ((closed : List Syscall) × ((cleanup_replica 1 u).calls
          ≡ u.calls ++ (kill_pid (negsuc 0) sigkill ∷ closed)))
restart_replica-refused_example =
    restart_replica-refused (kernel_for false) 3 (pipe_with 0 ∷ []) 0 1 (pos 15) three (omega arith)
      (λ _. refl)
