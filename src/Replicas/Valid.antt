-- ===== src/Replicas/Valid.antt =====
-- Every operation of src/replicas.c keeps the ring buffers of the replicas well formed.
use Prim.Native.String.{String}
use s3res.Prelude.{
  ℕ, ◌+◌, ◌<◌, refl, inl, inr, none, List, [], length, set, get_or, get_or-set_all, for_range,
  for_range_inv, if_both, OnSome, Option, Option-cases, zero, suc, ◌==◌, ltb, arith,
}
use s3res.Prelude.Int.{ℤ}
use s3res.Sys.{Syscall, Status, ok, error}
use s3res.VoteBuff.{VotePipe, no_pipe, reset_vote_pipe}
use s3res.VoteBuff.Inv.{IsValid, reset_vote_pipe-IsValid}
use s3res.Replicas.{
  Replica, Fleet, Kernel, no_rep, rep_of, vot_of, change, change_vot, reset_pair, init_rep,
  init_replicas, cleanup_replica,
}
use s3res.Replicas.Balance.{assign_priority, balance_reps, balanced, most_behind}
use s3res.Replicas.Restart.{
  join_pipe, create_pipe, create_pipes, connect_rep, fork_rep, fork_replicas, connect_reps,
  start_replicas, favour, revive, restart_replica,
}

-- Each pipe of the replica, on the voter's side, is a valid ring buffer.
abbrev pub PipesAreValid : Replica → Type 0
PipesAreValid rep = (p : ℕ) → p < length rep.vot_pipes → IsValid (get_or rep.vot_pipes p no_pipe)

abbrev pub FleetIsValid : List Replica → Type 0
FleetIsValid reps = (r : ℕ) → r < length reps → PipesAreValid (rep_of reps r)

pub change-FleetIsValid :
    (reps : List Replica) (r : ℕ) (f : Replica → Replica)
    → (PipesAreValid (rep_of reps r) → PipesAreValid (f (rep_of reps r)))
    → FleetIsValid reps
    → FleetIsValid (change reps r f)
change-FleetIsValid reps r f h v =
    get_or-set_all PipesAreValid reps r (f (rep_of reps r)) no_rep (λ inside. h (v r inside)) v

-- An assignment to one ring buffer that keeps it valid.
pub change_vot-FleetIsValid :
    (reps : List Replica) (r p : ℕ) (f : VotePipe → VotePipe)
    → (IsValid (vot_of reps r p) → IsValid (f (vot_of reps r p)))
    → FleetIsValid reps
    → FleetIsValid (change_vot reps r p f)
change_vot-FleetIsValid reps r p f h =
    change-FleetIsValid reps r
      (λ rep. record rep { vot_pipes = set rep.vot_pipes p (f (get_or rep.vot_pipes p no_pipe)) })
      (λ v.
        get_or-set_all IsValid (rep_of reps r).vot_pipes p (f (vot_of reps r p)) no_pipe
          (λ inside. h (v p inside)) v)

reset_pair-valid :
    (j : ℕ) (s : List Syscall × Replica) → PipesAreValid s.1 → PipesAreValid (reset_pair j s).1
unfolding reset_pair
reset_pair-valid j (closed, rep) v =
    get_or-set_all IsValid rep.vot_pipes j (reset_vote_pipe (get_or rep.vot_pipes j no_pipe)).1
      no_pipe (λ inside. reset_vote_pipe-IsValid (v j inside)) v

pub init_replicas-FleetIsValid :
    (first rep_num : ℕ) (name : String) (priority : ℤ) (f : Fleet)
    → FleetIsValid f.reps
    → FleetIsValid (init_replicas first rep_num name priority f).reps
unfolding init_replicas init_rep
init_replicas-FleetIsValid first rep_num name priority f =
    for_range_inv (λ _ u. FleetIsValid u.reps) (init_rep first name priority) rep_num 0 rep_num f
      (omega arith)
      (λ index u _ _ v.
        get_or-set_all PipesAreValid u.reps (first + index) _ no_rep
          (λ inside.
            for_range_inv (λ _ s. PipesAreValid s.1) reset_pair
              (rep_of u.reps (first + index)).pipe_count 0
              (rep_of u.reps (first + index)).pipe_count ([], rep_of u.reps (first + index))
              (omega arith) (λ j s _ _. reset_pair-valid j s) (v (first + index) inside))
          v)

join_pipe-valid :
    (ext : VotePipe) (p x y : ℕ) (rep : Replica)
    → PipesAreValid rep
    → PipesAreValid (join_pipe ext p x y rep)
unfolding join_pipe
join_pipe-valid ext p x y rep v =
    if_both PipesAreValid (ext.fd_in == 0)
      (get_or-set_all IsValid rep.vot_pipes p _ no_pipe (λ inside. moved _ _ _ (v p inside)) v)
      (get_or-set_all IsValid rep.vot_pipes p _ no_pipe (λ inside. moved _ _ _ (v p inside)) v)
  where
    moved :
        {pipe : VotePipe} (info : String) (i o : ℕ)
        → IsValid pipe
        → IsValid (record pipe { rep_info = info; fd_in = i; fd_out = o })
    moved info i o w = record { storage = w.storage; index_in = w.index_in; count_in = w.count_in }

abbrev AreValid : Fleet → Type 0
AreValid f = FleetIsValid f.reps

-- An operation that keeps the rings valid.
abbrev Sound : (Fleet → Fleet) → Type 0
Sound op = (f : Fleet) → AreValid f → AreValid (op f)

pid-valid :
    (reps : List Replica) (r : ℕ) (pid : ℤ)
    → FleetIsValid reps
    → FleetIsValid (change reps r (λ old. record old { pid = pid }))
pid-valid reps r pid = change-FleetIsValid reps r (λ old. record old { pid = pid }) (λ h. h)

loop-Sound :
    (op : ℕ → Fleet → Fleet) (n i : ℕ) → ((r : ℕ) → Sound (op r)) → Sound (for_range n i op)
loop-Sound op n i sound f v =
    for_range_inv (λ _ u. FleetIsValid u.reps) op n i (i + n) f refl (λ r u _ _. sound r u) v

module _ (k : Kernel) where
  pub assign_priority-FleetIsValid :
      (r : ℕ) (priority : ℤ) (f : Fleet)
      → FleetIsValid f.reps
      → FleetIsValid (assign_priority k r priority f).reps
  unfolding assign_priority
  assign_priority-FleetIsValid r priority f v =
      if_both FleetIsValid (k.policy_set (length f.calls))
        (change-FleetIsValid f.reps r (λ rep. record rep { priority = priority }) (λ h. h) v) v

  pub balance_reps-FleetIsValid :
      (num : ℕ) (priority : ℤ) (f : Fleet)
      → FleetIsValid f.reps
      → FleetIsValid (balance_reps k num priority f).reps
  unfolding balance_reps
  balance_reps-FleetIsValid num priority f v = if_both AreValid (ltb num 2) v (
      loop-Sound (λ r. assign_priority k r (balanced (most_behind f.reps num) priority r)) num 0
        (λ r. assign_priority-FleetIsValid r _) f v)

  create_pipe-Sound : (ext : List VotePipe) (r p : ℕ) → Sound (create_pipe k ext r p)
  unfolding create_pipe
  create_pipe-Sound ext r p f v = elim (Option-cases (k.pipe (length f.calls) r p)) [
    | inl e ↦ rw (e, create_pipe) v
    | inr ((x, y), e) ↦
        rw (e, create_pipe)
          (change-FleetIsValid f.reps r (join_pipe (get_or ext p no_pipe) p x y)
            (join_pipe-valid (get_or ext p no_pipe) p x y (rep_of f.reps r)) v)
  ]

  create_pipes-Sound :
      (first num : ℕ) (ext : List VotePipe) (pipe_count : ℕ)
      → Sound (create_pipes k first num ext pipe_count)
  unfolding create_pipes
  create_pipes-Sound first num ext pipe_count =
      loop-Sound (λ r. for_range pipe_count 0 (create_pipe k ext r)) num first
        (λ r. loop-Sound (create_pipe k ext r) pipe_count 0 (create_pipe-Sound ext r))

  connect_rep-valid :
      (r : ℕ) (f : Fleet) → FleetIsValid f.reps → FleetIsValid (connect_rep k r f).1.reps
  unfolding connect_rep
  connect_rep-valid r f v = pid-valid f.reps r _ v

  fork_rep-Sound : (argv : List (List ℕ)) (r : ℕ) → Sound (fork_rep k argv r)
  unfolding fork_rep
  fork_rep-Sound argv r f v = pid-valid f.reps r _ v

  connect_reps-valid :
      (num r : ℕ) (f : Fleet) → FleetIsValid f.reps → OnSome AreValid (connect_reps k num r f)
  unfolding connect_reps
  connect_reps-valid zero r f v = v
  connect_reps-valid (suc num) r f v =
      on_status (connect_rep k r f).0 _
        (connect_reps-valid num (r + 1) (connect_rep k r f).1 (connect_rep-valid r f v))
    where
      on_status :
          (s : Status) (rest : Option Fleet)
          → OnSome AreValid rest
          → OnSome AreValid (elim s [ ok ↦ rest | error ↦ none ])
      on_status ok rest h = h
      on_status error rest h = tt

  pub start_replicas-FleetIsValid :
      (num : ℕ) (name : String) (ext : List VotePipe) (pipe_count : ℕ) (priority : ℤ) (f : Fleet)
      → FleetIsValid f.reps
      → OnSome (λ g. FleetIsValid g.reps) (start_replicas k num name ext pipe_count priority f)
  unfolding start_replicas fork_replicas
  start_replicas-FleetIsValid num name ext pipe_count priority f v = connect_reps-valid num 0 _ (
      loop-Sound (fork_rep k []) num 0 (fork_rep-Sound []) _ (
        create_pipes-Sound 0 num ext pipe_count _
          (init_replicas-FleetIsValid 0 num name priority f v)))

  pub restart_replica-FleetIsValid :
      (num : ℕ) (ext : List VotePipe) (restarter restartee : ℕ) (priority : ℤ) (f : Fleet)
      → FleetIsValid f.reps
      → FleetIsValid (restart_replica k num ext restarter restartee priority f).reps
  unfolding restart_replica revive cleanup_replica favour
  restart_replica-FleetIsValid num ext restarter restartee priority f v =
      balance_reps-FleetIsValid num priority _ (
        connect_rep-valid restartee _ (
          create_pipes-Sound restartee 1 ext _ _ (
            init_replicas-FleetIsValid restartee 1 _ priority _ (
              loop-Sound (favour k restarter restartee priority) num 0
                (λ i u w.
                  if_both AreValid (i == restartee) w (assign_priority-FleetIsValid i _ u w))
                _ v))))
