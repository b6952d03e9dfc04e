-- ===== src/VoterM/Init/Valid.antt =====
-- The buffers that `initVoterM` allocates.
use s3res.Prelude.{
  ℕ, ◌≤◌, ◌≡◌, sym, subst, ap, ◌∙◌, true, some, [], tabulate, length, get_or, get_or-tabulate,
  length-tabulate,
}
use s3res.VoterM.State.{ReplicaR, Voter, max_pipe_buff, no_replica, rep_at}
use s3res.VoterM.Recover.{Spawn}
use s3res.VoterM.Recover.Start.{Responsive, start_replicas-Keeps, start_replicas-total}
use s3res.VoterM.Collect.Bounds.{RepIsValid, RepsAreValid}
use s3res.VoterM.Init.{Memory, init_replica, init_for_rep, init_voter}

-- The counts that malloc() leaves happen to lie within the buffers.
abbrev pub SmallCounts : Memory → Type 0
SmallCounts m = (r p : ℕ) → m.buff_count r p ≤ max_pipe_buff

init_replica-IsValid :
    (m : Memory) (v : Voter) (r : ℕ)
    → SmallCounts m
    → RepIsValid v.out_pipe_count (init_replica m v r)
unfolding init_replica
init_replica-IsValid m v r small = record {
  counts = length-tabulate v.out_pipe_count (m.buff_count r);
  buffers = length-tabulate v.out_pipe_count (λ p. tabulate max_pipe_buff (m.byte r p));
  storage = λ p h.
      ap length (get_or-tabulate v.out_pipe_count p (λ p. tabulate max_pipe_buff (m.byte r p)) [] h)
      ∙ length-tabulate max_pipe_buff (m.byte r p);
  fits = λ p h.
      subst (λ c. c ≤ max_pipe_buff) (sym (get_or-tabulate v.out_pipe_count p (m.buff_count r) 0 h))
        (small r p);
}

-- Validity depends on the counts and the buffers only.
valid_moves :
    (out : ℕ) (a b : ReplicaR)
    → b.buff_counts ≡ a.buff_counts
    → b.buffers ≡ a.buffers
    → RepIsValid out a
    → RepIsValid out b
valid_moves out a b e f h = record {
  counts = ap length e ∙ h.counts;
  buffers = ap length f ∙ h.buffers;
  storage = λ p k. ap (λ l. length (get_or l p [])) f ∙ h.storage p k;
  fits = λ p k. subst (λ l. get_or l p 0 ≤ max_pipe_buff) (sym e) (h.fits p k);
}

-- If the replicas connect and tell their pids, `initVoterM` succeeds, and if the memory for the counts
-- happens to hold numbers within the size of a buffer, the buffers of all replicas are then valid.
pub init_voter-IsValid :
    (m for_m : Memory) (s : Spawn) (v : Voter)
    → Responsive s
    → SmallCounts m
    → (u : Voter) × (init_voter m for_m s v ≡ some u)
      × RepsAreValid v.rep_count v.out_pipe_count u.replicas
unfolding init_voter
init_voter-IsValid m for_m s v live small =
    let set_up : Voter = record v {
      replicas = tabulate v.rep_count (init_replica m v);
      for_reps = tabulate v.rep_count (init_for_rep for_m v);
    } in
    let (u, e) = start_replicas-total s true 0 v.rep_count set_up live in
    let k = start_replicas-Keeps s true 0 v.rep_count set_up e in
    (
      u,
      e,
      λ r h.
          valid_moves v.out_pipe_count (rep_at set_up.replicas r) (rep_at u.replicas r) (k.counts r)
            (k.buffers r)
            (subst (RepIsValid v.out_pipe_count)
              (sym (get_or-tabulate v.rep_count r (init_replica m v) no_replica h))
              (init_replica-IsValid m v r small)),
    )
