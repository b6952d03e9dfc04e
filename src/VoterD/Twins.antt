-- ===== src/VoterD/Twins.antt =====
-- After a restart, the new replica's pipes hold what those of the replica that it was made from hold.
use s3res.Prelude.{
  ℕ, ◌+◌, ◌%◌, ◌<◌, ◌≤◌, ◌≡◌, ◌≢◌, inl, inr, refl, sym, subst, ap, ◌∙◌, ◌==◌, drop, length, false,
  Bool-cases, lt-cases, ==_iff, arith,
}
use mathlib.Core.Path.{subst₂}
use s3res.VoteBuff.{max_vote_pipe_buff, VotePipe, copy_pipe}
use s3res.VoteBuff.Inv.{IsValid, copy_pipe-IsValid}
use s3res.VoteBuff.Ring.{contents}
use s3res.VoteBuff.Advance.{advanced, contents-advanced}
use s3res.VoteBuff.Refine.{copy_pipe_lem}
use s3res.Replicas.{vot_of, change_vot}
use s3res.Replicas.Access.{
  vot_of-inside, vot_of-change_vot_self, vot_of-change_vot_ne, vot_of-change_vot_beside,
}
use s3res.Replicas.Count.{bytes_ready}
use s3res.Replicas.Least.{bytes_ready_le}
use s3res.Replicas.Valid.{change_vot-FleetIsValid}
use s3res.VoterD.{Desktop, on_fleet}
use s3res.VoterD.Data.{send_pipe, stop_timer}
use s3res.VoterD.Recover.{hand_over}
use s3res.Runs.{for_run, Ends, for_run-Ends, weaken-Ends}
use s3res.VoterD.Send.{Sent, send_pipe-Sent}
use s3res.VoterD.Valid.{RingsAreValid, send_pipe_none}

-- Two rings stand at the same index and hold the same bytes.
abbrev pub Twins : VotePipe → VotePipe → Type 0
Twins a b = (a.buff_index ≡ b.buff_index) × (contents a ≡ contents b)

-- Bytes that are taken from both leave twins.
advanced-Twins :
    (n : ℕ) (a b : VotePipe)
    → n ≤ a.buff_count
    → n ≤ b.buff_count
    → Twins a b
    → Twins (advanced a n) (advanced b n)
advanced-Twins n a b h k (i, c) = (
  ap (λ index. (index + n) % max_vote_pipe_buff) i,
  contents-advanced a n h ∙ ap (drop n) c ∙ sym (contents-advanced b n k),
)

-- What a call of `sendPipe` on pipe `p` leaves of the two replicas `e` and `r`.
module _ (p e r : ℕ) (d : Desktop) (e_in : e < d.rep_count) (r_in : r < d.rep_count) where
  record After (u : Desktop) : Type 0 where
    pub twins :
        Twins (vot_of d.fleet.reps e p) (vot_of d.fleet.reps r p)
        → Twins (vot_of u.fleet.reps e p) (vot_of u.fleet.reps r p)
    pub beside : (s q : ℕ) → q ≢ p → vot_of u.fleet.reps s q ≡ vot_of d.fleet.reps s q
    pub rep_count : u.rep_count ≡ d.rep_count
    pub valid : RingsAreValid d → RingsAreValid u

  send_pipe-After : (c : ℕ) → Ends ⊥ After (send_pipe p c d)
  send_pipe-After c = elim (lt-cases 0 (bytes_ready d.fleet.reps d.rep_count p)) [
    | inl (_, some_bytes) ↦
        weaken-Ends ⊥ (Sent _ p c d.rep_count (stop_timer p d)) After (send_pipe p c d)
          (λ u s. record {
            twins = λ same. subst₂ Twins (sym (s.taken e e_in)) (sym (s.taken r r_in)) (
                advanced-Twins _ (vot_of d.fleet.reps e p) (vot_of d.fleet.reps r p)
                  (bytes_ready_le d.fleet.reps d.rep_count p e e_in)
                  (bytes_ready_le d.fleet.reps d.rep_count p r r_in) same);
            beside = s.others;
            rep_count = ap (λ t. t.rep_count) s.rest;
            valid = s.valid;
          })
          (send_pipe-Sent p c d some_bytes)
    | inr (_, no_bytes) ↦
        subst (Ends ⊥ After) (sym (send_pipe_none p c d (omega arith)))
          (record { twins = λ h. h; beside = λ s q h. refl; rep_count = refl; valid = λ h. h })
  ]

-- The loop of `restart_prep` has handed over the pipes below `k`.
record Handed (e r : ℕ) (d : Desktop) (k : ℕ) (u : Desktop) : Type 0 where
  pub twins :
      (i : ℕ)
      → i < k
      → (vot_of d.fleet.reps r i).fd_in ≢ 0
      → Twins (vot_of u.fleet.reps e i) (vot_of u.fleet.reps r i)
  pub later_e : (i : ℕ) → k ≤ i → vot_of u.fleet.reps e i ≡ vot_of d.fleet.reps e i
  pub later_r : (i : ℕ) → k ≤ i → vot_of u.fleet.reps r i ≡ vot_of d.fleet.reps r i
  pub rep_count : u.rep_count ≡ d.rep_count
  pub valid : RingsAreValid u

module _ (e r : ℕ) (d : Desktop) (apart : e ≢ r) (e_in : e < d.rep_count)
    (r_in : r < d.rep_count) where
  -- The assignment of a round: pipe `k` of `e` becomes a copy of that of `r`.
  abbrev copied : ℕ → Desktop → Desktop
  copied k u =
      on_fleet
        (λ f. record f {
          reps = change_vot f.reps e k (λ pipe. copy_pipe pipe (vot_of u.fleet.reps r k));
        })
        u

  copied-Twins :
      (k : ℕ) (u : Desktop)
      → IsValid (vot_of u.fleet.reps e k)
      → IsValid (vot_of u.fleet.reps r k)
      → Twins (vot_of (copied k u).fleet.reps e k) (vot_of (copied k u).fleet.reps r k)
  copied-Twins k u v w =
      let there =
        vot_of-inside u.fleet.reps e k (λ absent.
          let size = ap (λ t. length t.buffer) absent in omega (arith, v.storage, size)) in
      let same = copy_pipe_lem v w in
      subst₂ Twins
        (sym (
          vot_of-change_vot_self u.fleet.reps e k (λ pipe. copy_pipe pipe (vot_of u.fleet.reps r k))
            there.0 there.1))
        (sym (
          vot_of-change_vot_ne u.fleet.reps e k (λ pipe. copy_pipe pipe (vot_of u.fleet.reps r k)) r
            k apart))
        (same.1, same.0)

  copied_beside :
      (k : ℕ) (u : Desktop) (s q : ℕ)
      → q ≢ k
      → vot_of (copied k u).fleet.reps s q ≡ vot_of u.fleet.reps s q
  copied_beside k u s q h =
      vot_of-change_vot_beside u.fleet.reps e k (λ pipe. copy_pipe pipe (vot_of u.fleet.reps r k)) q
        s h

  new :
      (k : ℕ)
      → IsValid (vot_of d.fleet.reps e k)
      → (u : Desktop) → Handed e r d k u
      → IsValid (vot_of u.fleet.reps e k)
  new k fresh u h = subst IsValid (sym (h.later_e k (omega arith))) fresh

  old :
      (k : ℕ) (u : Desktop)
      → Handed e r d k u
      → ((vot_of u.fleet.reps r k).fd_in == 0) ≡ false
      → IsValid (vot_of u.fleet.reps r k)
  old k u h opened =
      let (inside, within) = vot_of-inside u.fleet.reps r k (λ absent.
        let closed : (vot_of u.fleet.reps r k).fd_in ≡ 0 = ap (λ t. t.fd_in) absent in
        ground arith) in
      h.valid r inside k within

  -- After the assignment and `sendPipe`, one pipe more is handed over.
  sent_on :
      (k : ℕ) (u t : Desktop) {e_ok : e < u.rep_count} {r_ok : r < u.rep_count}
      → Handed e r d k u
      → IsValid (vot_of u.fleet.reps e k)
      → IsValid (vot_of u.fleet.reps r k)
      → After k e r (copied k u) e_ok r_ok t
      → Handed e r d (k + 1) t
  sent_on k u t h v w a = record {
    twins = λ i before opened. elim (lt-cases i k) [
      | inl (_, earlier) ↦
          subst₂ Twins (sym (beside e i (omega arith))) (sym (beside r i (omega arith)))
            (h.twins i earlier opened)
      | inr (_, now) ↦
          let same : k ≡ i = omega arith in
          subst (λ j. Twins (vot_of t.fleet.reps e j) (vot_of t.fleet.reps r j)) same
            (a.twins (copied-Twins k u v w))
    ];
    later_e = λ i above. beside e i (omega arith) ∙ h.later_e i (omega arith);
    later_r = λ i above. beside r i (omega arith) ∙ h.later_r i (omega arith);
    rep_count = a.rep_count ∙ h.rep_count;
    valid = a.valid (
        change_vot-FleetIsValid u.fleet.reps e k (λ pipe. copy_pipe pipe (vot_of u.fleet.reps r k))
          (λ target. copy_pipe-IsValid target w) h.valid);
  }
    where
      beside : (s i : ℕ) → i ≢ k → vot_of t.fleet.reps s i ≡ vot_of u.fleet.reps s i
      beside s i other = a.beside s i other ∙ copied_beside k u s i other

  hand_over-Handed :
      (k : ℕ) (u : Desktop)
      → IsValid (vot_of d.fleet.reps e k)
      → Handed e r d k u
      → Ends ⊥ (Handed e r d (k + 1)) (hand_over e r k u)
  unfolding hand_over
  hand_over-Handed k u fresh h = elim (Bool-cases ((vot_of u.fleet.reps r k).fd_in == 0)) [
    | inl closed ↦ rw closed (record {
      twins = λ i before opened. elim (lt-cases i k) [
        | inl (_, earlier) ↦ h.twins i earlier opened
        | inr (_, now) ↦
            let same : i ≡ k = omega arith in
            let none : (vot_of d.fleet.reps r i).fd_in ≡ 0 =
              ap (λ j. (vot_of d.fleet.reps r j).fd_in) same
              ∙ sym (ap (λ t. t.fd_in) (h.later_r k (omega arith)))
              ∙ (==_iff (vot_of u.fleet.reps r k).fd_in 0).0 closed in
            absurd (opened none)
      ];
      later_e = λ i above. h.later_e i (omega arith);
      later_r = λ i above. h.later_r i (omega arith);
      rep_count = h.rep_count;
      valid = h.valid;
    })
    | inr opened ↦ rw opened (
        weaken-Ends ⊥ (After k e r (copied k u) _ _) (Handed e r d (k + 1))
          (send_pipe k r (copied k u))
          (λ t a. sent_on k u t h (new k fresh u h) (old k u h opened) a)
          (send_pipe-After k e r (copied k u) (rw (h.rep_count) e_in) (rw (h.rep_count) r_in) r))
  ]

-- The replica `e` that is replaced is made a twin of another replica `r` of the array: if the rings are
-- valid and `e` has its `n` pipes, the loop that hands them over runs to its end, and for each of these
-- pipes that comes from a replica, the two rings then stand at the same index and hold the same bytes.
pub hand_over-Twins :
    (e r n : ℕ) (d : Desktop)
    → e ≢ r
    → e < d.rep_count
    → r < d.rep_count
    → RingsAreValid d
    → ((i : ℕ) → i < n → IsValid (vot_of d.fleet.reps e i))
    → Ends ⊥
        (λ u.
          (i : ℕ)
          → i < n
          → (vot_of d.fleet.reps r i).fd_in ≢ 0
          → Twins (vot_of u.fleet.reps e i) (vot_of u.fleet.reps r i))
        (for_run n 0 (hand_over e r) d)
hand_over-Twins e r n d apart e_in r_in v fresh =
    weaken-Ends ⊥ (Handed e r d n) _ (for_run n 0 (hand_over e r) d) (λ u h. h.twins)
      (for_run-Ends ⊥ (Handed e r d) (hand_over e r) n 0 n d (omega arith)
        (λ k u _ below. hand_over-Handed e r d apart e_in r_in k u (fresh k below))
        (record {
          twins = λ i before. absurd (omega arith);
          later_e = λ i _. refl;
          later_r = λ i _. refl;
          rep_count = refl;
          valid = v;
        }))
