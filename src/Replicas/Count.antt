-- ===== src/Replicas/Count.antt =====
-- src/replicas.c: how many bytes the replicas hold on a pipe, who is ahead and who is behind.
use s3res.Prelude.{ℕ, ◌+◌, ◌-◌, List, ltb, ◌==◌, for_range, if◌then◌else◌}
use s3res.Prelude.Int.{ltz}
use s3res.VoteBuff.{max_vote_pipe_buff}
use s3res.Replicas.{Replica, rep_of, vot_of, held}

unfoldable pub bytes_ready : List Replica → ℕ → ℕ → ℕ
bytes_ready reps num pipe_num =
    for_range num 0 (λ r min. if ltb (held reps r pipe_num) min then held reps r pipe_num else min)
      max_vote_pipe_buff

unfoldable pub ahead_rep : List Replica → ℕ → ℕ → ℕ
ahead_rep reps num pipe_num =
    for_range num 0
      (λ r most. if ltb (held reps most pipe_num) (held reps r pipe_num) then r else most) 0

-- One round of `behindRep`.
unfoldable pub behind_round : List Replica → ℕ → ℕ → ℕ → ℕ
behind_round reps pipe_num r most =
    if ltb (held reps r pipe_num) (held reps most pipe_num)
    then r
    else if held reps r pipe_num == held reps most pipe_num
    then if ltz (rep_of reps most).priority (rep_of reps r).priority then r else most
    else most

unfoldable pub behind_rep : List Replica → ℕ → ℕ → ℕ
behind_rep reps num pipe_num = for_range (num - 1) 1 (behind_round reps pipe_num) 0

-- `reps[aheadRep(...)]` holds the most, so that the difference does not fall below 0 for a replica
-- of the array.
unfoldable pub rep_gap : List Replica → ℕ → ℕ → ℕ
rep_gap reps num rep_num =
    for_range (rep_of reps 0).pipe_count 0
      (λ p gap.
        if (vot_of reps 0 p).fd_in == 0
        then gap
        else gap + (held reps (ahead_rep reps num p) p - held reps rep_num p))
      0
