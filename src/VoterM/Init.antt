-- ===== src/VoterM/Init.antt =====
-- voter/voterm.c: the replicas are set up (`initVoterM`), with CONTROLLER_PIN as system_config.h has
-- it for four cores, QUAD_PIN_POLICY.
use s3res.Prelude.{ℕ, ◌+◌, Option, true, List, [], tabulate}
use s3res.Prelude.Int.{pos, ◌-ℤ◌}
use s3res.VoterM.State.{ReplicaR, Voter, max_pipe_buff}
use s3res.VoterM.Recover.{Spawn, start_replicas}
pub mod Valid

-- What malloc() leaves in the memory that it gives: the program sets none of it here.
pub record Memory : Type 0 where
  pub pid : ℕ → ℕ
  pub fd_in : ℕ → ℕ → ℕ
  pub fd_out : ℕ → ℕ → ℕ
  pub buff_count : ℕ → ℕ → ℕ
  pub byte : ℕ → ℕ → ℕ → ℕ

-- `replicas[index]` behind the loop
unfoldable pub init_replica : Memory → Voter → ℕ → ReplicaR
init_replica m v index = record {
  pinned_cpu = pos (index + 1);
  priority = v.voter_priority -ℤ pos 4;
  pid = m.pid index;
  in_pipe_count = v.in_pipe_count;
  fd_ins = tabulate v.in_pipe_count (m.fd_in index);
  out_pipe_count = v.out_pipe_count;
  fd_outs = tabulate v.out_pipe_count (m.fd_out index);
  buff_counts = tabulate v.out_pipe_count (m.buff_count index);
  buffers = tabulate v.out_pipe_count (λ p. tabulate max_pipe_buff (m.byte index p));
}

-- `for_reps[index]`, which has no buffers
unfoldable pub init_for_rep : Memory → Voter → ℕ → ReplicaR
init_for_rep m v index = record {
  pinned_cpu = pos (index + 1);
  priority = v.voter_priority -ℤ pos 4;
  pid = m.pid index;
  in_pipe_count = v.in_pipe_count;
  fd_ins = tabulate v.in_pipe_count (m.fd_in index);
  out_pipe_count = v.out_pipe_count;
  fd_outs = tabulate v.out_pipe_count (m.fd_out index);
  buff_counts = [];
  buffers = [];
}

-- The first memory is for `replicas`, the second for `for_reps`. `none`: the process exits.
unfoldable pub init_voter : Memory → Memory → Spawn → Voter → Option Voter
init_voter m for_m s v = start_replicas s true 0 v.rep_count (record v {
  replicas = tabulate v.rep_count (init_replica m v);
  for_reps = tabulate v.rep_count (init_for_rep for_m v);
})
