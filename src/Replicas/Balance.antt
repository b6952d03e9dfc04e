-- ===== src/Replicas/Balance.antt =====
-- src/replicas.c: `balanceReps`, the priorities of the replicas by how far each is behind.
use s3res.Prelude.{ℕ, List, [], ◌∷◌, ◌++◌, ltb, ◌==◌, for_range, if◌then◌else◌}
use s3res.Prelude.Int.{ℤ, pos, ◌+ℤ◌}
use s3res.Sys.{set_policy}
use s3res.Replicas.{Replica, Fleet, Kernel, rep_of, change, now}
use s3res.Replicas.Count.{rep_gap}

-- `sched_set_policy(reps[r].pid, priority)`, and the assignment behind it.
unfoldable pub assign_priority : Kernel → ℕ → ℤ → Fleet → Fleet
assign_priority k r priority f = record {
  reps =
      if k.policy_set (now f)
      then change f.reps r (λ rep. record rep { priority = priority })
      else f.reps;
  calls = f.calls ++ (set_policy (rep_of f.reps r).pid priority ∷ []);
}

-- One round of the first loop, over (starting, second).
unfoldable pub balance_round : List Replica → ℕ → ℕ → ℕ × ℕ → ℕ × ℕ
balance_round reps num index (starting, second) =
    if ltb (rep_gap reps num starting) (rep_gap reps num index)
    then (index, second)
    else if ltb (rep_gap reps num second) (rep_gap reps num index)
    then if index == starting then (starting, second) else (starting, index)
    else (starting, second)

unfoldable pub most_behind : List Replica → ℕ → ℕ × ℕ
most_behind reps num = for_range num 0 (balance_round reps num) (0, 1)

-- The second loop's choice.
unfoldable pub balanced : ℕ × ℕ → ℤ → ℕ → ℤ
balanced (starting, second) default_priority index =
    if index == starting
    then default_priority +ℤ pos 2
    else if index == second
    then default_priority +ℤ pos 1
    else default_priority

unfoldable pub balance_reps : Kernel → ℕ → ℤ → Fleet → Fleet
balance_reps k num default_priority f =
    let chosen = most_behind f.reps num in
    if ltb num 2
    then f
    else for_range num 0
        (λ index u. assign_priority k index (balanced chosen default_priority index) u) f
