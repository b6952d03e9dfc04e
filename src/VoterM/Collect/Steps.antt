-- ===== src/VoterM/Collect/Steps.antt =====
-- One turn of the loop in `collectFromReps`: it ends in a timeout, or with the last answer, or it
-- goes on.
use mathlib.Core.Option.{some-injective}
use s3res.Prelude.{
  none, refl, subst, sym, ◌∙◌, [], ℕ, ◌≡◌, inl, inr, Bool, true, false, Bool-cases, some, List, ◌∷◌,
  ◌&&◌, not,
}
use s3res.Prelude.Int.{pos, ltz}
use s3res.Sys.{Wake}
use s3res.VoterM.State.{Voter}
use s3res.VoterM.Collect.{Sweep, sweep, out_fd_set, collect_loop}

abbrev pub after : Wake → ℕ → ℕ → Voter → Sweep
after w expected rep_done v =
    sweep v (out_fd_set v) w expected
      (record { reps = v.replicas; rep_done = rep_done; done = false })

abbrev pub expired : Bool → Wake → Voter → Bool
expired set_timer w v = set_timer && not (ltz (pos w.elapsed) v.voting_timeout)

abbrev pub timed_out : Voter → Voter
timed_out v = record v { timeout_occurred = true }

abbrev pub stored : Wake → ℕ → ℕ → Voter → Voter
stored w expected rep_done v = record v { replicas = (after w expected rep_done v).reps }

module _ (set_timer : Bool) (expected : ℕ) (w : Wake) (ws : List Wake) (rep_done : ℕ)
    (v : Voter) where
  pub collect_expired :
      expired set_timer w v ≡ true
      → collect_loop set_timer expected (w ∷ ws) rep_done v ≡ some (rep_done, timed_out v)
  unfolding collect_loop
  collect_expired e = rw e

  pub collect_done :
      expired set_timer w v ≡ false
      → (after w expected rep_done v).done ≡ true
      → collect_loop set_timer expected (w ∷ ws) rep_done v
        ≡ some ((after w expected rep_done v).rep_done, stored w expected rep_done v)
  unfolding collect_loop
  collect_done e d = rw (e, d)

  pub collect_more :
      expired set_timer w v ≡ false
      → (after w expected rep_done v).done ≡ false
      → collect_loop set_timer expected (w ∷ ws) rep_done v
        ≡ collect_loop set_timer expected ws
            (after w expected rep_done v).rep_done
            (stored w expected rep_done v)
  unfolding collect_loop
  collect_more e d = rw (e, d)

collect_nil :
    (set_timer : Bool) (expected d : ℕ) (v : Voter) → collect_loop set_timer expected [] d v ≡ none
unfolding collect_loop
collect_nil set_timer expected d v = refl

-- The rule for the whole loop: `P` holds before each turn, `Q` behind the last.
pub collect_rule {ℓ κ} :
    (P : List Wake → ℕ → Voter → Type ℓ) (Q : ℕ → Voter → Type κ) (set_timer : Bool) (expected : ℕ)
    → ((w : Wake) (ws : List Wake) (d : ℕ) (v : Voter)
        → P (w ∷ ws) d v
        → expired set_timer w v ≡ true
        → Q d (timed_out v))
    → ((w : Wake) (ws : List Wake) (d : ℕ) (v : Voter)
        → P (w ∷ ws) d v
        → expired set_timer w v ≡ false
        → (after w expected d v).done ≡ true
        → Q (after w expected d v).rep_done (stored w expected d v))
    → ((w : Wake) (ws : List Wake) (d : ℕ) (v : Voter)
        → P (w ∷ ws) d v
        → (after w expected d v).done ≡ false
        → P ws (after w expected d v).rep_done (stored w expected d v))
    → (ws : List Wake) (d : ℕ) (v : Voter) {n : ℕ} {u : Voter} → P ws d v
    → collect_loop set_timer expected ws d v ≡ some (n, u)
    → Q n u
collect_rule P Q set_timer expected late last more [] d v p h =
    absurd (cc (h, collect_nil set_timer expected d v))
collect_rule P Q set_timer expected late last more (w ∷ ws) d v p h =
    elim (Bool-cases (expired set_timer w v)) [
      | inl e ↦
          subst (λ x. Q x.0 x.1)
            (some-injective _ _ (sym (collect_expired set_timer expected w ws d v e) ∙ h))
            (late w ws d v p e)
      | inr e ↦ elim (Bool-cases (after w expected d v).done) [
        | inl f ↦
            subst (λ x. Q x.0 x.1)
              (some-injective _ _ (sym (collect_done set_timer expected w ws d v e f) ∙ h))
              (last w ws d v p e f)
        | inr f ↦
            collect_rule P Q set_timer expected late last more ws (after w expected d v).rep_done
              (stored w expected d v) (more w ws d v p f)
              (sym (collect_more set_timer expected w ws d v e f) ∙ h)
      ]
    ]
