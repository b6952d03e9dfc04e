-- ===== src/Replicas/Access.antt =====
-- Reading the pipes of the replicas after an assignment to one of them.
use s3res.Prelude.{
  ℕ, ◌<◌, ◌≡◌, ◌≢◌, ap, ◌∙◌, inl, inr, List, get_or, length, get_or-set_self, get_or-set_ne,
  get_or_outside, set_outside, sym, subst, ==_iff, ◌==◌, Bool-cases, lt-cases, arith,
}
use s3res.VoteBuff.{VotePipe, no_pipe}
use s3res.Replicas.{Replica, no_rep, rep_of, vot_of, held, change_vot}

module _ (reps : List Replica) (r p : ℕ) where
  -- A pipe that differs from the stand-in is one of the array.
  pub vot_of-inside :
      vot_of reps r p ≢ no_pipe → (r < length reps) × (p < length (rep_of reps r).vot_pipes)
  vot_of-inside h = elim (lt-cases r (length reps)) [
    | inl (_, inside) ↦ elim (lt-cases p (length (rep_of reps r).vot_pipes)) [
      | inl (_, within) ↦ (inside, within)
      | inr (_, over) ↦ absurd (h (get_or_outside (rep_of reps r).vot_pipes p no_pipe over))
    ]
    | inr (_, over) ↦
        absurd (h (ap (λ rep. get_or rep.vot_pipes p no_pipe) (get_or_outside reps r no_rep over)))
  ]

  pub held-inside : 0 < held reps r p → (r < length reps) × (p < length (rep_of reps r).vot_pipes)
  held-inside h =
      vot_of-inside
        (λ e. let none : held reps r p ≡ 0 = ap (λ v. v.buff_count) e in absurd (omega arith))

  module _ (f : VotePipe → VotePipe) where
    pub vot_of-change_vot_self :
        r < length reps
        → p < length (rep_of reps r).vot_pipes
        → vot_of (change_vot reps r p f) r p ≡ f (vot_of reps r p)
    vot_of-change_vot_self inside within =
        ap (λ rep. get_or rep.vot_pipes p no_pipe) (get_or-set_self reps r _ no_rep inside)
        ∙ get_or-set_self (rep_of reps r).vot_pipes p _ no_pipe within

    pub vot_of-change_vot_ne :
        (s q : ℕ) → r ≢ s → vot_of (change_vot reps r p f) s q ≡ vot_of reps s q
    vot_of-change_vot_ne s q h =
        ap (λ rep. get_or rep.vot_pipes q no_pipe) (get_or-set_ne reps _ no_rep h)

    pub vot_of-change_vot_beside :
        (q s : ℕ) → q ≢ p → vot_of (change_vot reps r p f) s q ≡ vot_of reps s q
    vot_of-change_vot_beside q s h = elim (Bool-cases (r == s)) [
      | inr apart ↦ vot_of-change_vot_ne s q (ground arith)
      | inl e ↦
          let same : r ≡ s = (==_iff r s).0 e in
          subst (λ t. vot_of (change_vot reps r p f) t q ≡ vot_of reps t q) same
            (elim (lt-cases r (length reps)) [
              | inl (_, inside) ↦
                  ap (λ rep. get_or rep.vot_pipes q no_pipe)
                    (get_or-set_self reps r _ no_rep inside)
                  ∙ get_or-set_ne (rep_of reps r).vot_pipes _ no_pipe (λ same. h (sym same))
              | inr (_, outside) ↦ ap (λ l. vot_of l r q) (set_outside reps r _ outside)
            ])
    ]
