-- ===== src/VoterM/Recover/Kill.antt =====
-- `killAndClean` touches one replica only, and closes all of its pipes.
use s3res.Prelude.{
  ℕ, ◌+◌, ◌<◌, ◌≡◌, ◌≢◌, refl, subst, ap, ◌∙◌, Bool-cases, ◌⊎◌, inl, inr, for_range, for_range_inv,
  ◌==◌, List, [], ◌∷◌, set, get_or, lt-cases, arith, get_or-set_default, get_or-set_keeps_default,
}
use s3res.Prelude.Int.{pos}
use s3res.Sys.{kill_pid, reap, sigkill}
use s3res.VoterM.State.{ReplicaR, Voter, rep_at, update_rep, fd_in_at, fd_out_at, issue}
use s3res.VoterM.State.Lemmas.{rep_at-update_rep_ne, rep_at-update_rep_total}
use s3res.VoterM.State.Keeps.{
  Keeps, chain-Keeps, for_range-Keeps, issue-Keeps, update-Keeps, writes_quiet,
}
use s3res.VoterM.Recover.{close_in, close_out, kill_and_clean}

-- the assignments of the two loops
abbrev clear_in : ℕ → ReplicaR → ReplicaR
clear_in p r = record r { fd_ins = set r.fd_ins p 0 }

abbrev clear_out : ℕ → ReplicaR → ReplicaR
clear_out p r = record r { fd_outs = set r.fd_outs p 0 }

close_in-Keeps : (rep p : ℕ) (v : Voter) → Keeps v (close_in rep p v)
unfolding close_in
close_in-Keeps rep p v =
    update-Keeps v rep (clear_in p) _ _ (λ r. refl) (λ r. refl) (writes_quiet v.calls _ refl)

close_out-Keeps : (rep p : ℕ) (v : Voter) → Keeps v (close_out rep p v)
unfolding close_out
close_out-Keeps rep p v =
    update-Keeps v rep (clear_out p) _ _ (λ r. refl) (λ r. refl) (writes_quiet v.calls _ refl)

-- the state behind the two loops
abbrev looped : ℕ → Voter → Voter
looped rep v = for_range v.out_pipe_count 0 (close_out rep) (
    for_range v.in_pipe_count 0 (close_in rep)
      (issue (kill_pid (pos (rep_at v.replicas rep).pid) sigkill ∷ []) v))

kill_and_clean-looped :
    (rep : ℕ) (v : Voter)
    → (kill_and_clean rep v ≡ looped rep v)
      ⊎ (kill_and_clean rep v ≡ issue (reap ∷ []) (looped rep v))
unfolding kill_and_clean
kill_and_clean-looped rep v = elim (Bool-cases (v.rep_count == 1)) [
  | inl e ↦ inr (rw e)
  | inr e ↦ inl (rw e)
]

-- Killing a replica loses no answer that has been collected, and writes nothing.
pub kill_and_clean-Keeps : (rep : ℕ) (v : Voter) → Keeps v (kill_and_clean rep v)
kill_and_clean-Keeps rep v = elim (kill_and_clean-looped rep v) [
  | inl e ↦ rw e loops
  | inr e ↦ rw e (chain-Keeps loops (issue-Keeps (reap ∷ []) (looped rep v) refl))
]
  where
    killed : Voter
    killed = issue (kill_pid (pos (rep_at v.replicas rep).pid) sigkill ∷ []) v

    loops : Keeps v (looped rep v)
    loops =
        chain-Keeps (issue-Keeps (kill_pid (pos (rep_at v.replicas rep).pid) sigkill ∷ []) v refl) (
          chain-Keeps (for_range-Keeps (close_in rep) v.in_pipe_count 0 killed (close_in-Keeps rep))
            (for_range-Keeps (close_out rep) v.out_pipe_count 0 _ (close_out-Keeps rep)))

-- Of the two tables, each: the first `i` inputs and `o` outputs of `rep` are closed, and the other
-- replicas are as in `before`.
record Cleared (rep i o : ℕ) (before after : List ReplicaR) : Type 0 where
  ins : (p : ℕ) → p < i → fd_in_at after rep p ≡ 0
  outs : (p : ℕ) → p < o → fd_out_at after rep p ≡ 0
  others : (s : ℕ) → rep ≢ s → rep_at after s ≡ rep_at before s

clear_in-Cleared :
    (rep i : ℕ) (before after : List ReplicaR)
    → Cleared rep i 0 before after
    → Cleared rep (i + 1) 0 before (update_rep after rep (clear_in i))
clear_in-Cleared rep i before after c =
    let r = rep_at after rep in
    let here : rep_at (update_rep after rep (clear_in i)) rep ≡ clear_in i r =
      rep_at-update_rep_total after rep (clear_in i) refl in
    record {
      ins = λ p h. ap (λ (x : ReplicaR). get_or x.fd_ins p 0) here ∙ elim (lt-cases p i) [
        | inl (_, old) ↦ get_or-set_keeps_default r.fd_ins i p 0 (c.ins p old)
        | inr (_, new) ↦
            let e : i ≡ p = omega arith in
            subst (λ k. get_or (set r.fd_ins i 0) k 0 ≡ 0) e (get_or-set_default r.fd_ins i 0)
      ];
      outs = λ p h. absurd (omega arith);
      others = λ s ne. rep_at-update_rep_ne after rep (clear_in i) s ne ∙ c.others s ne;
    }

clear_out-Cleared :
    (rep i o : ℕ) (before after : List ReplicaR)
    → Cleared rep i o before after
    → Cleared rep i (o + 1) before (update_rep after rep (clear_out o))
clear_out-Cleared rep i o before after c =
    let r = rep_at after rep in
    let here : rep_at (update_rep after rep (clear_out o)) rep ≡ clear_out o r =
      rep_at-update_rep_total after rep (clear_out o) refl in
    record {
      ins = λ p h. ap (λ (x : ReplicaR). get_or x.fd_ins p 0) here ∙ c.ins p h;
      outs = λ p h. ap (λ (x : ReplicaR). get_or x.fd_outs p 0) here ∙ elim (lt-cases p o) [
        | inl (_, old) ↦ get_or-set_keeps_default r.fd_outs o p 0 (c.outs p old)
        | inr (_, new) ↦
            let e : o ≡ p = omega arith in
            subst (λ k. get_or (set r.fd_outs o 0) k 0 ≡ 0) e (get_or-set_default r.fd_outs o 0)
      ];
      others = λ s ne. rep_at-update_rep_ne after rep (clear_out o) s ne ∙ c.others s ne;
    }

-- both tables
abbrev BothCleared : ℕ → ℕ → ℕ → Voter → Voter → Type 0
BothCleared rep i o u v =
    Cleared rep i o u.replicas v.replicas × Cleared rep i o u.for_reps v.for_reps

looped-Cleared :
    (rep : ℕ) (v : Voter) → BothCleared rep v.in_pipe_count v.out_pipe_count v (looped rep v)
unfolding close_in close_out
looped-Cleared rep v =
    for_range_inv (λ o u. BothCleared rep v.in_pipe_count o v u) (close_out rep) v.out_pipe_count 0
      v.out_pipe_count _ (omega arith)
      (λ o u _ _ c. (
        clear_out-Cleared rep v.in_pipe_count o v.replicas u.replicas c.0,
        clear_out-Cleared rep v.in_pipe_count o v.for_reps u.for_reps c.1,
      ))
      (for_range_inv (λ i u. BothCleared rep i 0 v u) (close_in rep) v.in_pipe_count 0
        v.in_pipe_count _ (omega arith)
        (λ i u _ _ c. (
          clear_in-Cleared rep i v.replicas u.replicas c.0,
          clear_in-Cleared rep i v.for_reps u.for_reps c.1,
        ))
        (untouched v.replicas, untouched v.for_reps))
  where
    untouched : (reps : List ReplicaR) → Cleared rep 0 0 reps reps
    untouched reps = record {
      ins = λ p h. absurd (omega arith);
      outs = λ p h. absurd (omega arith);
      others = λ s ne. refl;
    }

-- From `v` to `u` the replica `rep` has lost its pipes, on the voter's side and on its own, and the
-- other replicas are as they were.
abbrev pub Killed : ℕ → Voter → Voter → Type 0
Killed rep v u =
    ((p : ℕ)
      → p < v.in_pipe_count
      → (fd_in_at u.replicas rep p ≡ 0) × (fd_in_at u.for_reps rep p ≡ 0))
    × ((p : ℕ)
        → p < v.out_pipe_count
        → (fd_out_at u.replicas rep p ≡ 0) × (fd_out_at u.for_reps rep p ≡ 0))
    × ((s : ℕ)
        → rep ≢ s
        → (rep_at u.replicas s ≡ rep_at v.replicas s) × (rep_at u.for_reps s ≡ rep_at v.for_reps s))

-- After `killAndClean` every input and output descriptor of the killed replica is 0, on the voter's
-- side and on the replica's, and no other replica's record has changed on either side.
pub kill_and_clean-Killed : (rep : ℕ) (v : Voter) → Killed rep v (kill_and_clean rep v)
kill_and_clean-Killed rep v = elim (kill_and_clean-looped rep v) [
  | inl e ↦ rw e parts
  | inr e ↦ rw e parts
]
  where
    c : BothCleared rep v.in_pipe_count v.out_pipe_count v (looped rep v)
    c = looped-Cleared rep v

    parts : Killed rep v (looped rep v)
    parts = (
      (λ p h. (c.0.ins p h, c.1.ins p h)),
      (λ p h. (c.0.outs p h, c.1.outs p h)),
      (λ s ne. (c.0.others s ne, c.1.others s ne)),
    )
