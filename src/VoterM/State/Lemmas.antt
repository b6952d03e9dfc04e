-- ===== src/VoterM/State/Lemmas.antt =====
-- Reading the replicas after an assignment to one of them, and the writes among the system calls.
use s3res.Prelude.{
  ℕ, ◌<◌, ◌≡◌, ◌≢◌, sym, subst, ap, ◌∙◌, ◌⊎◌, inl, inr, List, arith, length, get_or-set_self,
  get_or-set_ne, get_or_outside, set_outside, lt-cases, ==_iff, Bool-cases, ◌==◌,
}
use s3res.VoterM.State.{ReplicaR, no_replica, rep_at, update_rep}

module _ (reps : List ReplicaR) (r : ℕ) (f : ReplicaR → ReplicaR) where
  pub rep_at-update_rep_self : r < length reps → rep_at (update_rep reps r f) r ≡ f (rep_at reps r)
  rep_at-update_rep_self h = get_or-set_self reps r (f (rep_at reps r)) no_replica h

  pub rep_at-update_rep_ne : (s : ℕ) → r ≢ s → rep_at (update_rep reps r f) s ≡ rep_at reps s
  rep_at-update_rep_ne s h = get_or-set_ne reps (f (rep_at reps r)) no_replica h

  -- An update that leaves the stand-in alone can be read back at any index.
  pub rep_at-update_rep_total :
      f no_replica ≡ no_replica → rep_at (update_rep reps r f) r ≡ f (rep_at reps r)
  rep_at-update_rep_total h = elim (lt-cases r (length reps)) [
    | inl (_, inside) ↦ rep_at-update_rep_self inside
    | inr (_, outside) ↦
        let gone = get_or_outside reps r no_replica outside in
        ap (λ l. rep_at l r) (set_outside reps r _ outside) ∙ gone ∙ sym (ap f gone ∙ h)
  ]

  -- Whatever the index: the entry read is the updated one, or it has not changed.
  pub rep_at-update_rep_cases :
      (s : ℕ)
      → ((s ≡ r) × (rep_at (update_rep reps r f) s ≡ f (rep_at reps s)))
        ⊎ (rep_at (update_rep reps r f) s ≡ rep_at reps s)
  rep_at-update_rep_cases s = elim (Bool-cases (r == s)) [
    | inl e ↦
        let same = (==_iff r s).0 e in
        elim (lt-cases r (length reps)) [
          | inl (_, inside) ↦ inl (
            sym same,
            subst (λ k. rep_at (update_rep reps r f) k ≡ f (rep_at reps k)) same
                (rep_at-update_rep_self inside),
          )
          | inr (_, outside) ↦ inr (ap (λ l. rep_at l s) (set_outside reps r _ outside))
        ]
    | inr e ↦ inr (rep_at-update_rep_ne s (ground arith))
  ]

-- An update that keeps what `g` reads, keeps it for every replica.
pub update_rep_keeps {ℓ} :
    {A : Type ℓ} (reps : List ReplicaR) (r : ℕ) (f : ReplicaR → ReplicaR) (g : ReplicaR → A)
    → ((rep : ReplicaR) → g (f rep) ≡ g rep)
    → (s : ℕ) → g (rep_at (update_rep reps r f) s) ≡ g (rep_at reps s)
update_rep_keeps reps r f g h s = elim (rep_at-update_rep_cases reps r f s) [
  | inl (_, e) ↦ ap g e ∙ h (rep_at reps s)
  | inr e ↦ ap g e
]
