-- ===== src/VoterM/Single/Count.antt =====
-- What `sendCollect` counts, and that it comes back.
use mathlib.Core.Option.{some-injective}
use s3res.Prelude.{
  ℕ, zero, suc, ◌+◌, ◌<◌, ◌≤◌, ◌≡◌, refl, subst, ◌⊎◌, inl, inr, Bool, true, false, Bool-cases,
  Option, none, some, Option-cases, for_range_inv, arith, List, [], ◌∷◌, ◌==◌, ==_iff, for_range,
}
use s3res.Prelude.Int.{ℤ, pos, ltz, ◌-ℤ◌}
use s3res.Sys.{Wake, fd_isset, write_to}
use s3res.VoterM.State.{Voter, fd_out_at, fd_in_at, issue}
use s3res.VoterM.Input.{check_wait_on_input}
use s3res.VoterM.Collect.{Sweep, stop_pipe}
use s3res.VoterM.Single.{
  SingleWorld, set_priority, own_fd_set, own_pipe, own_loop, serve, send_collect,
}

-- Before the pipe `p` of a sweep that started with `d` answers.
abbrev pub Seen : Voter → ℕ → ℕ → Sweep → Type 0
Seen v d p s =
    ((s.done ≡ false) × (s.rep_done ≡ d))
    ⊎ ((s.done ≡ true) × (s.rep_done ≡ d + 1) × (stop_pipe v < p))

own_pipe-Seen :
    (v : Voter) (fds : List ℕ) (w : Wake) (r d p : ℕ) (s : Sweep)
    → Seen v d p s
    → Seen v d (p + 1) (own_pipe v fds w r p s)
unfolding own_pipe
own_pipe-Seen v fds w r d p s h = elim (Bool-cases (fd_isset fds w (fd_out_at s.reps r p))) [
  | inl e ↦ elim (Bool-cases (p == stop_pipe v)) [
    | inl e' ↦ rw (e, e') (later h e')
    | inr e' ↦ rw (e, e') (ground arith)
  ]
  | inr e ↦ rw e (ground arith)
]
  where
    later :
        Seen v d p s
        → (p == stop_pipe v) ≡ true
        → Seen v d (p + 1) (record { reps = s.reps; rep_done = s.rep_done + 1; done = true })
    later h e' = ground (arith, ==_iff p (stop_pipe v))

abbrev pub swept : ℕ → Wake → ℕ → Voter → Sweep
swept r w d v =
    for_range v.out_pipe_count 0 (own_pipe v (own_fd_set v r) w r)
      (record { reps = v.replicas; rep_done = d; done = false })

pub swept-Seen : (r : ℕ) (w : Wake) (d : ℕ) (v : Voter) → Seen v d v.out_pipe_count (swept r w d v)
swept-Seen r w d v =
    for_range_inv (Seen v d) (own_pipe v (own_fd_set v r) w r) v.out_pipe_count 0 v.out_pipe_count _
      (omega arith) (λ p s _ _ h. own_pipe-Seen v (own_fd_set v r) w r d p s h) (inl (refl, refl))

-- What a replica's turn leaves of the flags: it has answered, or it is late and is to blame.
abbrev Served : ℕ → ℕ → Voter → ℕ × Voter → Type 0
Served r d v (n, u) =
    (((n ≡ d + 1) × (u.timeout_occurred ≡ v.timeout_occurred) × (u.fault_index ≡ v.fault_index))
      ⊎ ((n ≡ d) × (u.timeout_occurred ≡ true) × (u.fault_index ≡ r)))

abbrev pub stored : ℕ → Wake → ℕ → Voter → Voter
stored r w d v = record v { replicas = (swept r w d v).reps }

own_loop-Served :
    (r : ℕ) (ws : List Wake) (d : ℕ) (v : Voter) (x : ℕ × Voter)
    → own_loop r ws d v ≡ some x
    → Served r d v x
unfolding own_loop
own_loop-Served r [] d v x h = absurd (cc h)
own_loop-Served r (w ∷ ws) d v x h = elim (Bool-cases (ltz (pos w.elapsed) v.voting_timeout)) [
  | inr late ↦
      subst (Served r d v) (some-injective _ _ (rw (late, own_loop) at h)) (inr (refl, refl, refl))
  | inl time ↦ elim (Bool-cases (swept r w d v).done) [
    | inl e ↦
        subst (Served r d v) (some-injective _ _ (rw (time, e, own_loop) at h))
          (inl (answered e, refl, refl))
    | inr e ↦
        subst (λ k. Served r k v x) (unanswered e)
          (own_loop-Served r ws (swept r w d v).rep_done (stored r w d v) x
            (rw (time, e, own_loop) at h))
  ]
]
  where
    answered : (swept r w d v).done ≡ true → (swept r w d v).rep_done ≡ d + 1
    answered e = ground (arith, swept-Seen r w d v)

    unanswered : (swept r w d v).done ≡ false → (swept r w d v).rep_done ≡ d
    unanswered e = ground (arith, swept-Seen r w d v)

pub set_priority_flags :
    (b : Bool) (r : ℕ) (priority : ℤ) (v : Voter)
    → let u = set_priority b r priority v in
      (u.timeout_occurred ≡ v.timeout_occurred)
      × (u.fault_index ≡ v.fault_index)
      × (u.voting_timeout ≡ v.voting_timeout)
unfolding set_priority
set_priority_flags true r priority v = (refl, refl, refl)
set_priority_flags false r priority v = (refl, refl, refl)

-- The outcome of `n` replicas from `r` on: all have answered, or fewer, and one of those that are
-- late is to blame.
abbrev Result : ℕ → ℕ → ℕ → Voter → ℕ × Voter → Type 0
Result n r d v (c, u) =
    ((c ≡ d + n) × (u.timeout_occurred ≡ v.timeout_occurred) × (u.fault_index ≡ v.fault_index))
    ⊎ ((c < d + n) × (u.timeout_occurred ≡ true) × (r ≤ u.fault_index) × (u.fault_index < r + n))

-- the state in which the voter waits for replica `r`
abbrev pub asked : SingleWorld → ℕ → ℕ → Voter → Voter
asked w active r v =
    set_priority (w.raised r) r (v.voter_priority -ℤ pos 1)
      (issue (write_to (fd_in_at v.replicas r active) v.ext_in_bytes ∷ []) v)

serve-Result :
    (w : SingleWorld) (active n r d : ℕ) (v : Voter) {x : ℕ × Voter}
    → serve w true active n r d v ≡ some x
    → Result n r d v x
unfolding serve
serve-Result w active zero r d v h =
    subst (Result zero r d v) (some-injective _ _ h) (inl (omega arith, refl, refl))
serve-Result w active (suc n) r d v h =
    elim (Option-cases (own_loop r (w.answers r) d (asked w active r v))) [
      | inl e ↦ absurd (cc (rw (e, serve) at h))
      | inr ((c, u), e) ↦
          let back = set_priority (w.lowered r) r (u.voter_priority -ℤ pos 4) u in
          let rest = serve-Result w active n (r + 1) c back (rw (e, serve) at h) in
          ground (
            arith,
            rest,
            own_loop-Served r (w.answers r) d (asked w active r v) (c, u) e,
            set_priority_flags (w.lowered r) r (u.voter_priority -ℤ pos 4) u,
            set_priority_flags (w.raised r) r (v.voter_priority -ℤ pos 1)
                (issue (write_to (fd_in_at v.replicas r active) v.ext_in_bytes ∷ []) v),
          )
    ]

module _ (w : SingleWorld) (v : Voter) (active : ℕ) (e : v.active_pipe_index ≡ some active)
    (expects : check_wait_on_input v ≡ true) where
  abbrev pub served : Option (ℕ × Voter)
  served = serve w true active v.rep_count 0 0 (record v { timeout_occurred = false })

  pub send_collect-none : served ≡ none → send_collect w v ≡ none
  unfolding send_collect
  send_collect-none h = ground (arith, h)

  pub send_collect-some :
      (c : ℕ) (u : Voter) → served ≡ some (c, u) → send_collect w v ≡ some (some c, u)
  unfolding send_collect
  send_collect-some c u h = ground (arith, h)

-- In a turn that expects answers, when `sendCollect` comes back with a count, either the count is the
-- number of replicas and no timeout has occurred, or it is lower, a timeout has occurred, and the
-- index to blame is that of a replica.
pub send_collect-counts :
    (w : SingleWorld) (v : Voter) (active n : ℕ) (u : Voter)
    → v.active_pipe_index ≡ some active
    → check_wait_on_input v ≡ true
    → send_collect w v ≡ some (some n, u)
    → ((n ≡ v.rep_count) × (u.timeout_occurred ≡ false))
      ⊎ ((n < v.rep_count) × (u.timeout_occurred ≡ true) × (u.fault_index < v.rep_count))
send_collect-counts w v active n u e expects h = elim (Option-cases (served w v active e expects)) [
  | inl none_yet ↦ absurd (cc (h, send_collect-none w v active e expects none_yet))
  | inr ((c, u'), back) ↦ ground (
    arith,
    h,
    send_collect-some w v active e expects c u' back,
    serve-Result w active v.rep_count 0 0 (record v { timeout_occurred = false }) back,
  )
]
