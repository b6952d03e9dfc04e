-- ===== src/Replicas/Process.antt =====
-- What a restart makes of the process of a replica: where it is pinned, and which pid is kept.
use s3res.Prelude.{
  ℕ, ◌+◌, ◌<◌, ◌≡◌, refl, sym, ap, ◌∙◌, subst, false, inl, inr, Option-cases, List, [], ◌∷◌, ◌++◌,
  length, length-set, get_or, set, get_or-set_self, get_or-set_look, for_range, for_range_inv, ltb,
  if_both, ◌==◌, arith,
}
use Prim.Native.String.{String}
use s3res.FdServer.{accept_send_fds}
use s3res.Prelude.Int.{ℤ, pos, negsuc}
use s3res.Sys.{Syscall, kill_pid, sigkill, restart_signal, set_policy}
use s3res.VoteBuff.{VotePipe, no_pipe}
use s3res.Replicas.{
  Replica, Fleet, Kernel, no_rep, rep_of, change, init_rep, init_replicas, close_pair,
  cleanup_replica, call,
}
use s3res.Replicas.Balance.{assign_priority, balance_reps, balanced, most_behind}
use s3res.Replicas.Restart.{
  join_pipe, create_pipe, create_pipes, connect_rep, favour, revive, restart_replica,
}

-- The replicas are the same processes, on the same processors.
pub record SameProcesses (f u : Fleet) : Type 0 where
  pub number : length u.reps ≡ length f.reps
  pub pid : (r : ℕ) → (rep_of u.reps r).pid ≡ (rep_of f.reps r).pid
  pub pinned_cpu : (r : ℕ) → (rep_of u.reps r).pinned_cpu ≡ (rep_of f.reps r).pinned_cpu

abbrev same_processes : (f : Fleet) → SameProcesses f f
same_processes f = record { number = refl; pid = λ r. refl; pinned_cpu = λ r. refl }

after-SameProcesses : {f u t : Fleet} → SameProcesses f u → SameProcesses u t → SameProcesses f t
after-SameProcesses h k = record {
  number = k.number ∙ h.number;
  pid = λ r. k.pid r ∙ h.pid r;
  pinned_cpu = λ r. k.pinned_cpu r ∙ h.pinned_cpu r;
}

loop-SameProcesses :
    (op : ℕ → Fleet → Fleet) (n i : ℕ) (f : Fleet)
    → ((r : ℕ) (u : Fleet) → SameProcesses u (op r u))
    → SameProcesses f (for_range n i op f)
loop-SameProcesses op n i f keep =
    for_range_inv (λ _ u. SameProcesses f u) op n i (i + n) f refl
      (λ r u _ _ h. after-SameProcesses h (keep r u)) (same_processes f)

-- An assignment to a replica that leaves its process alone.
change-SameProcesses :
    (f : Fleet) (r : ℕ) (op : Replica → Replica) (calls : List Syscall)
    → (op (rep_of f.reps r)).pid ≡ (rep_of f.reps r).pid
    → (op (rep_of f.reps r)).pinned_cpu ≡ (rep_of f.reps r).pinned_cpu
    → SameProcesses f (record { reps = change f.reps r op; calls = calls })
change-SameProcesses f r op calls h k = record {
  number = length-set f.reps r (op (rep_of f.reps r));
  pid = get_or-set_look (λ rep. rep.pid) f.reps r _ no_rep h;
  pinned_cpu = get_or-set_look (λ rep. rep.pinned_cpu) f.reps r _ no_rep k;
}

module _ (k : Kernel) where
  assign_priority-SameProcesses :
      (r : ℕ) (priority : ℤ) (f : Fleet) → SameProcesses f (assign_priority k r priority f)
  unfolding assign_priority
  assign_priority-SameProcesses r priority f =
      if_both (λ (reps : List Replica). SameProcesses f (record { reps = reps; calls = calls }))
        (k.policy_set (length f.calls))
        (change-SameProcesses f r (λ rep. record rep { priority = priority }) _ refl refl)
        (record { number = refl; pid = λ s. refl; pinned_cpu = λ s. refl })
    where
      calls : List Syscall
      calls = f.calls ++ (set_policy (rep_of f.reps r).pid priority ∷ [])

  balance_reps-SameProcesses :
      (num : ℕ) (priority : ℤ) (f : Fleet) → SameProcesses f (balance_reps k num priority f)
  unfolding balance_reps
  balance_reps-SameProcesses num priority f =
      if_both (SameProcesses f) (ltb num 2) (same_processes f) (
        loop-SameProcesses (λ r. assign_priority k r (balanced (most_behind f.reps num) priority r))
          num 0 f (λ r. assign_priority-SameProcesses r _))

  create_pipe-SameProcesses :
      (ext : List VotePipe) (r p : ℕ) (f : Fleet) → SameProcesses f (create_pipe k ext r p f)
  unfolding create_pipe join_pipe
  create_pipe-SameProcesses ext r p f = elim (Option-cases (k.pipe (length f.calls) r p)) [
    | inl e ↦ rw (e, create_pipe) (same_processes f)
    | inr ((x, y), e) ↦
        let incoming = (get_or ext p no_pipe).fd_in == 0 in
        rw (e, create_pipe)
          (change-SameProcesses f r (join_pipe (get_or ext p no_pipe) p x y) f.calls
            (if_both (λ (t : Replica). t.pid ≡ (rep_of f.reps r).pid) incoming refl refl)
            (if_both (λ (t : Replica). t.pinned_cpu ≡ (rep_of f.reps r).pinned_cpu) incoming refl
              refl))
  ]

  create_pipes-SameProcesses :
      (first num : ℕ) (ext : List VotePipe) (n : ℕ) (f : Fleet)
      → SameProcesses f (create_pipes k first num ext n f)
  unfolding create_pipes
  create_pipes-SameProcesses first num ext n f =
      loop-SameProcesses (λ r. for_range n 0 (create_pipe k ext r)) num first f
        (λ r u. loop-SameProcesses (create_pipe k ext r) n 0 u (create_pipe-SameProcesses ext r))

  favour-SameProcesses :
      (num restarter restartee : ℕ) (priority : ℤ) (f : Fleet)
      → SameProcesses f (for_range num 0 (favour k restarter restartee priority) f)
  unfolding favour
  favour-SameProcesses num restarter restartee priority f =
      loop-SameProcesses (favour k restarter restartee priority) num 0 f (λ i u.
        if_both (SameProcesses u) (i == restartee) (same_processes u)
          (assign_priority-SameProcesses i _ u))

set_at :
    (reps : List Replica) (i r : ℕ) (v : Replica)
    → i ≡ r
    → r < length reps
    → rep_of (set reps i v) r ≡ v
set_at reps i r v e inside =
    subst (λ j. rep_of (set reps j v) r ≡ v) (sym e) (get_or-set_self reps r v no_rep inside)

-- The replica that is set up again has no pid yet, and is the first of an array of one.
init_replicas_one :
    (r : ℕ) (name : String) (priority : ℤ) (f : Fleet)
    → r < length f.reps
    → let u = init_replicas r 1 name priority f in
      (length u.reps ≡ length f.reps)
      × ((rep_of u.reps r).pid ≡ negsuc 0)
      × ((rep_of u.reps r).pinned_cpu ≡ pos 1)
unfolding init_replicas init_rep for_range
init_replicas_one r name priority f inside =
    let here : r + 0 ≡ r = omega arith in
    (
      length-set f.reps (r + 0) _,
      ap (λ rep. rep.pid) (set_at f.reps (r + 0) r _ here inside),
      ap (λ rep. rep.pinned_cpu) (set_at f.reps (r + 0) r _ here inside),
    )

-- An accept() that fails leaves the pid as it is; in any case the processor stays.
connect_rep_lem :
    (k : Kernel) (r : ℕ) (f : Fleet)
    → let u = (connect_rep k r f).1 in
      ((rep_of u.reps r).pinned_cpu ≡ (rep_of f.reps r).pinned_cpu)
      × (((t : ℕ) → (k.client t).accepted ≡ false) → (rep_of u.reps r).pid ≡ (rep_of f.reps r).pid)
unfolding connect_rep accept_send_fds
connect_rep_lem k r f = (
  get_or-set_look (λ rep. rep.pinned_cpu) f.reps r _ no_rep refl r,
  (λ refused.
      get_or-set_look (λ rep. rep.pid) f.reps r _ no_rep (rw (refused (length f.calls)) refl) r),
)

-- How a restart ends for the replica that is replaced.
restarted :
    (k : Kernel) (num : ℕ) (ext : List VotePipe) (restarter restartee : ℕ) (priority : ℤ)
    (f : Fleet)
    → restartee < length f.reps
    → let u = restart_replica k num ext restarter restartee priority f in
      ((rep_of u.reps restartee).pinned_cpu ≡ pos 1)
      × (((t : ℕ) → (k.client t).accepted ≡ false) → (rep_of u.reps restartee).pid ≡ negsuc 0)
unfolding restart_replica revive cleanup_replica
restarted k num ext restarter restartee priority f inside = (
  last.pinned_cpu restartee
      ∙ (connect_rep_lem k restartee piped).0
      ∙ same.pinned_cpu restartee
      ∙ first.2,
  (λ refused.
      last.pid restartee
      ∙ (connect_rep_lem k restartee piped).1 refused
      ∙ same.pid restartee
      ∙ first.1),
)
  where
    cleaned : Fleet
    cleaned = for_range num 0 (favour k restarter restartee priority) (cleanup_replica restartee f)

    signalled : Fleet
    signalled = call (kill_pid (rep_of cleaned.reps restarter).pid restart_signal ∷ []) cleaned

    fresh : Fleet
    fresh = init_replicas restartee 1 (rep_of signalled.reps restarter).name priority signalled

    piped : Fleet
    piped = create_pipes k restartee 1 ext (rep_of fresh.reps restarter).pipe_count fresh

    last :
        SameProcesses
          (connect_rep k restartee piped).1
          (balance_reps k num priority (connect_rep k restartee piped).1)
    last = balance_reps-SameProcesses k num priority (connect_rep k restartee piped).1

    same : SameProcesses fresh piped
    same =
        create_pipes-SameProcesses k restartee 1 ext (rep_of fresh.reps restarter).pipe_count fresh

    number : length cleaned.reps ≡ length f.reps
    number =
        (favour-SameProcesses k num restarter restartee priority
          (cleanup_replica restartee f)).number

    first :
        (length fresh.reps ≡ length signalled.reps)
        × ((rep_of fresh.reps restartee).pid ≡ negsuc 0)
        × ((rep_of fresh.reps restartee).pinned_cpu ≡ pos 1)
    first =
        init_replicas_one restartee (rep_of signalled.reps restarter).name priority signalled
          (omega (arith, number, inside))

-- Whichever replica is restarted, the new process is told to run on processor 1, whatever the others
-- run on.
pub restart_replica-pinned :
    (k : Kernel) (num : ℕ) (ext : List VotePipe) (restarter restartee : ℕ) (priority : ℤ)
    (f : Fleet)
    → restartee < length f.reps
    → (rep_of (restart_replica k num ext restarter restartee priority f).reps restartee).pinned_cpu
      ≡ pos 1
restart_replica-pinned k num ext restarter restartee priority f inside =
    (restarted k num ext restarter restartee priority f inside).0

-- If accept() fails during the restart of a replica of the array, the replica is left with the pid -1, and the first call that is made when it is next cleaned away is kill(-1, SIGKILL).
pub restart_replica-refused :
    (k : Kernel) (num : ℕ) (ext : List VotePipe) (restarter restartee : ℕ) (priority : ℤ)
    (f : Fleet)
    → restartee < length f.reps
    → ((t : ℕ) → (k.client t).accepted ≡ false)
    → let u = restart_replica k num ext restarter restartee priority f in
      ((rep_of u.reps restartee).pid ≡ negsuc 0)
      × ((closed : List Syscall) × ((cleanup_replica restartee u).calls
            ≡ u.calls ++ (kill_pid (negsuc 0) sigkill ∷ closed)))
unfolding cleanup_replica
restart_replica-refused k num ext restarter restartee priority f inside refused =
    let u = restart_replica k num ext restarter restartee priority f in
    let rep = rep_of u.reps restartee in
    let closed = for_range rep.pipe_count 0 (close_pair rep) [] in
    let lost = (restarted k num ext restarter restartee priority f inside).1 refused in
    (lost, (closed, ap (λ pid. u.calls ++ (kill_pid pid sigkill ∷ closed)) lost))
