-- ===== src/Replicas/Restart.antt =====
-- src/replicas.c: the pipes of new replicas, their processes, and the restart of one.
use Prim.Native.String.{String}
use s3res.Prelude.{
  ℕ, zero, suc, ◌+◌, Option, none, some, List, [], ◌∷◌, ◌++◌, set, get_or, ◌==◌, for_range,
  if◌then◌else◌,
}
use s3res.Prelude.Int.{ℤ, pos, ◌+ℤ◌}
use s3res.Prelude.Text.{codes, decimal}
use s3res.Sys.{kill_pid, restart_signal, fork_exec, Status, ok, error}
use s3res.VoteBuff.{VotePipe, no_pipe}
use s3res.FdServer.{accept_send_fds}
use s3res.Replicas.{
  Replica, Fleet, Kernel, rep_of, change, now, call, init_replicas, cleanup_replica,
}
use s3res.Replicas.Balance.{assign_priority, balance_reps}

-- The assignments of `createPipes` for the two ends of a new pipe.
unfoldable pub join_pipe : VotePipe → ℕ → ℕ → ℕ → Replica → Replica
join_pipe ext_pipe p read_end write_end rep =
    let vot = get_or rep.vot_pipes p no_pipe in
    let own = get_or rep.rep_pipes p no_pipe in
    let info = ext_pipe.rep_info in
    if ext_pipe.fd_in == 0
    then record rep {
      vot_pipes =
          set rep.vot_pipes p (record vot { rep_info = info; fd_in = read_end; fd_out = 0 });
      rep_pipes =
          set rep.rep_pipes p (record own { rep_info = info; fd_in = 0; fd_out = write_end });
      voter_rep_in_copy = set rep.voter_rep_in_copy p 0;
      pipe_count = p + 1;
    }
    else record rep {
      vot_pipes =
          set rep.vot_pipes p (record vot { rep_info = info; fd_in = 0; fd_out = write_end });
      rep_pipes =
          set rep.rep_pipes p (record own { rep_info = info; fd_in = read_end; fd_out = 0 });
      voter_rep_in_copy = set rep.voter_rep_in_copy p read_end;
      pipe_count = p + 1;
    }

-- One pipe of one replica; `none` is pipe()'s -1.
unfoldable pub create_pipe : Kernel → List VotePipe → ℕ → ℕ → Fleet → Fleet
create_pipe k ext_pipes r p f = elim (k.pipe (now f) r p) [
  | none ↦ f
  | some (read_end, write_end) ↦ record f {
    reps = change f.reps r (join_pipe (get_or ext_pipes p no_pipe) p read_end write_end);
  }
]

-- `createPipes(&reps[first], num, ext_pipes, pipe_count)`
unfoldable pub create_pipes : Kernel → ℕ → ℕ → List VotePipe → ℕ → Fleet → Fleet
create_pipes k first num ext_pipes pipe_count f =
    for_range num first (λ r u. for_range pipe_count 0 (create_pipe k ext_pipes r) u) f

-- `acceptSendFDS` for `reps[r]`
unfoldable pub connect_rep : Kernel → ℕ → Fleet → Status × Fleet
connect_rep k r f =
    let rep = rep_of f.reps r in
    let ((status, pid), sent) =
      accept_send_fds (k.client (now f)) rep.pid rep.rep_pipes rep.pipe_count rep.pinned_cpu
        rep.priority in
    (
      status,
      record { reps = change f.reps r (λ old. record old { pid = pid }); calls = f.calls ++ sent },
    )

-- `forkSingle` in the voter's process: fork() and, in the child, execv(). fork()'s answer is a pid
-- or -1.
unfoldable pub fork_rep : Kernel → List (List ℕ) → ℕ → Fleet → Fleet
fork_rep k additional_argv r f =
    let rep = rep_of f.reps r in
    record {
      reps = change f.reps r (λ old. record old { pid = k.fork (now f) });
      calls =
          f.calls
          ++ (fork_exec (
                codes rep.name
                ∷ decimal rep.priority
                ∷ decimal (pos rep.pipe_count)
                ∷ additional_argv)
              ∷ []);
    }

-- `forkReplicas(reps, num, ...)`
unfoldable pub fork_replicas : Kernel → ℕ → List (List ℕ) → Fleet → Fleet
fork_replicas k num additional_argv f = for_range num 0 (fork_rep k additional_argv) f

-- The loop of `startReplicas` over the clients: `none` for exit(-1).
unfoldable pub connect_reps : Kernel → ℕ → ℕ → Fleet → Option Fleet
connect_reps k zero r f = some f
connect_reps k (suc num) r f =
    let (status, u) = connect_rep k r f in
    let rest = connect_reps k num (r + 1) u in elim status [ ok ↦ rest | error ↦ none ]

unfoldable pub start_replicas : Kernel → ℕ → String → List VotePipe → ℕ → ℤ → Fleet → Option Fleet
start_replicas k num name ext_pipes pipe_count default_priority f = connect_reps k num 0 (
    fork_replicas k num []
      (create_pipes k 0 num ext_pipes pipe_count (init_replicas 0 num name default_priority f)))

-- One round of the loop of `restartReplica` that favours the restarter.
unfoldable pub favour : Kernel → ℕ → ℕ → ℤ → ℕ → Fleet → Fleet
favour k restarter restartee default_priority i f =
    if i == restartee
    then f
    else assign_priority k i
        (if i == restarter then default_priority +ℤ pos 2 else default_priority) f

-- The signal and what follows: `restartee` is set up again as an array of one.
unfoldable pub revive : Kernel → List VotePipe → ℕ → ℕ → ℤ → Fleet → Fleet
revive k ext_pipes restarter restartee default_priority f =
    let signalled = call (kill_pid (rep_of f.reps restarter).pid restart_signal ∷ []) f in
    let fresh =
      init_replicas restartee 1 (rep_of signalled.reps restarter).name default_priority signalled in
    let piped =
      create_pipes k restartee 1 ext_pipes (rep_of fresh.reps restarter).pipe_count fresh in
    (connect_rep k restartee piped).1

unfoldable pub restart_replica : Kernel → ℕ → List VotePipe → ℕ → ℕ → ℤ → Fleet → Fleet
restart_replica k num ext_pipes restarter restartee default_priority f =
    balance_reps k num default_priority (
      revive k ext_pipes restarter restartee default_priority (
        for_range num 0 (favour k restarter restartee default_priority)
          (cleanup_replica restartee f)))
