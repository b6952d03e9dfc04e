-- ===== src/VoterM/Single/Returns.antt =====
-- `sendCollect` comes back.
use s3res.Prelude.{
  ℕ, zero, suc, ◌+◌, ◌≡◌, refl, sym, subst, ap, ◌∙◌, inl, inr, true, false, Bool-cases, some, List,
  [], ◌∷◌, ◌++◌,
}
use s3res.Prelude.Int.{ℤ, pos, ltz, ◌-ℤ◌}
use s3res.Sys.{Wake, write_to}
use s3res.VoterM.State.{Voter, fd_in_at, issue}
use s3res.VoterM.Input.{check_wait_on_input}
use s3res.VoterM.Single.{SingleWorld, set_priority, own_loop, serve, send_collect}
use s3res.VoterM.Single.Count.{swept, stored, asked, set_priority_flags, send_collect-some}

-- Among the sleeps there is one before which the timeout has passed.
abbrev pub TimeEnds : ℤ → List Wake → Type 0
TimeEnds timeout ws =
    (before : List Wake) × (w : Wake) × (later : List Wake) × (ws ≡ before ++ w ∷ later)
    × (ltz (pos w.elapsed) timeout ≡ false)

-- The loop comes back, with the timeout that it was given.
abbrev Returns : ℕ → List Wake → ℕ → Voter → Type 0
Returns r ws d v =
    (x : ℕ × Voter) × (own_loop r ws d v ≡ some x) × (x.1.voting_timeout ≡ v.voting_timeout)

-- what the loop gives in a timeout
abbrev late_answer : ℕ → ℕ → Voter → ℕ × Voter
late_answer r d v = (d, record v { timeout_occurred = true; fault_index = r })

own_loop-Returns :
    (r : ℕ) (before later : List Wake) (w : Wake) (d : ℕ) (v : Voter)
    → ltz (pos w.elapsed) v.voting_timeout ≡ false
    → Returns r (before ++ w ∷ later) d v
unfolding own_loop
own_loop-Returns r [] later w d v late = (late_answer r d v, rw (late, own_loop) refl, refl)
own_loop-Returns r (x ∷ before) later w d v late =
    elim (Bool-cases (ltz (pos x.elapsed) v.voting_timeout)) [
      | inr over ↦ (late_answer r d v, rw (over, own_loop) refl, refl)
      | inl time ↦ elim (Bool-cases (swept r x d v).done) [
        | inl e ↦ (((swept r x d v).rep_done, stored r x d v), rw (time, e, own_loop) refl, refl)
        | inr e ↦
            let (y, back, same) =
              own_loop-Returns r before later w (swept r x d v).rep_done (stored r x d v) late in
            (y, rw (time, e, own_loop) back, same)
      ]
    ]

serve_returns :
    (w : SingleWorld) (active n r d : ℕ) (v : Voter)
    → ((k : ℕ) → TimeEnds v.voting_timeout (w.answers k))
    → (x : ℕ × Voter) × (serve w true active n r d v ≡ some x)
unfolding serve
serve_returns w active zero r d v ends = ((d, v), refl)
serve_returns w active (suc n) r d v ends =
    let start = asked w active r v in
    let flags =
      set_priority_flags (w.raised r) r (v.voter_priority -ℤ pos 1)
        (issue (write_to (fd_in_at v.replicas r active) v.ext_in_bytes ∷ []) v) in
    let (before, x, later, e, late) = ends r in
    let (y, back, same) =
      subst (λ ws. Returns r ws d start) (sym e)
        (own_loop-Returns r before later x d start
          (ap (λ t. ltz (pos x.elapsed) t) flags.2 ∙ late)) in
    let u = set_priority (w.lowered r) r (y.1.voter_priority -ℤ pos 4) y.1 in
    let timeout : u.voting_timeout ≡ v.voting_timeout =
      (set_priority_flags (w.lowered r) r (y.1.voter_priority -ℤ pos 4) y.1).2 ∙ same ∙ flags.2 in
    let (z, rest) =
      serve_returns w active n (r + 1) y.0 u
        (λ k. subst (λ t. TimeEnds t (w.answers k)) (sym timeout) (ends k)) in
    (z, rw (back, serve) rest)

-- In a turn that expects answers `sendCollect` always comes back with a count, whatever the replicas
-- do: for each of them at the latest when the voter finds that the voting timeout has passed.
pub send_collect-returns :
    (w : SingleWorld) (v : Voter) (active : ℕ)
    → v.active_pipe_index ≡ some active
    → check_wait_on_input v ≡ true
    → ((k : ℕ) → TimeEnds v.voting_timeout (w.answers k))
    → (n : ℕ) × (u : Voter) × (send_collect w v ≡ some (some n, u))
send_collect-returns w v active e expects ends =
    let ((n, u), back) =
      serve_returns w active v.rep_count 0 0 (record v { timeout_occurred = false }) ends in
    (n, u, send_collect-some w v active e expects n u back)
