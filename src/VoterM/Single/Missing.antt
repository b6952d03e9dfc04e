-- ===== src/VoterM/Single/Missing.antt =====
-- Who has answered when one answer is missing, on a single core.
use mathlib.Core.Option.{some-injective}
use s3res.Prelude.{
  ℕ, zero, suc, ◌+◌, ◌<◌, ◌≤◌, ◌≡◌, ◌≢◌, ◌⊎◌, refl, sym, subst, ap, ◌∙◌, inl, inr, Bool, true,
  false, Bool-cases, some, Option-cases, arith, List, [], ◌∷◌, length, length-set, get_or, lt-cases,
}
use s3res.Prelude.Int.{ℤ, pos, ltz, ◌-ℤ◌}
use s3res.Sys.{Wake, write_to}
use s3res.VoterM.State.{ReplicaR, Voter, count_at, fd_in_at, update_rep, issue}
use s3res.VoterM.State.Lemmas.{update_rep_keeps}
use s3res.VoterM.Collect.{stop_pipe}
use s3res.VoterM.Single.{SingleWorld, set_priority, own_loop, serve}
use s3res.VoterM.Single.Count.{swept, swept-Seen, stored, asked, set_priority_flags}
use s3res.VoterM.Single.Answered.{Shaped, NoneAtEnd, Grows, same_reps, then-Grows, swept-Swept}

-- What was read is still there; the pipe that counts is the same one.
pub record Goes (v u : Voter) : Type 0 where
  pub grows : Grows v.replicas u.replicas
  pub stop : stop_pipe u ≡ stop_pipe v
  pub outs : u.out_pipe_count ≡ v.out_pipe_count
  pub reps : u.rep_count ≡ v.rep_count

then-Goes : {a b c : Voter} → Goes a b → Goes b c → Goes a c
then-Goes h k = record {
  grows = then-Grows h.grows k.grows;
  stop = k.stop ∙ h.stop;
  outs = k.outs ∙ h.outs;
  reps = k.reps ∙ h.reps;
}

-- An assignment that leaves the counts alone.
update-Grows :
    (reps : List ReplicaR) (r : ℕ) (f : ReplicaR → ReplicaR)
    → ((rep : ReplicaR) → (f rep).buff_counts ≡ rep.buff_counts)
    → Grows reps (update_rep reps r f)
update-Grows reps r f keeps = record {
  shaped = λ n out (there, sizes). (
    omega (arith, length-set reps r (f (get_or reps r _))),
    (λ s s_in.
        update_rep_keeps reps r f (λ rep. length rep.buff_counts) (λ rep. ap length (keeps rep)) s
        ∙ sizes s s_in),
  );
  mono = λ s q h.
      subst (λ c. 0 < c)
        (sym (
          update_rep_keeps reps r f (λ rep. get_or rep.buff_counts q 0)
            (λ rep. ap (λ l. get_or l q 0) (keeps rep)) s))
        h;
}

set_priority-Goes :
    (b : Bool) (r : ℕ) (priority : ℤ) (v : Voter) → Goes v (set_priority b r priority v)
unfolding set_priority
set_priority-Goes true r priority v = record {
  grows = update-Grows v.replicas r (λ rep. record rep { priority = priority }) (λ rep. refl);
  stop = refl;
  outs = refl;
  reps = refl;
}
set_priority-Goes false r priority v = record {
  grows = same_reps v.replicas;
  stop = refl;
  outs = refl;
  reps = refl;
}

asked-Goes : (w : SingleWorld) (active r : ℕ) (v : Voter) → Goes v (asked w active r v)
asked-Goes w active r v =
    then-Goes (record { grows = same_reps v.replicas; stop = refl; outs = refl; reps = refl })
      (set_priority-Goes (w.raised r) r (v.voter_priority -ℤ pos 1)
        (issue (write_to (fd_in_at v.replicas r active) v.ext_in_bytes ∷ []) v))

-- How the turn of replica `r` ends: it has answered, or it is the one to blame.
abbrev Waited : ℕ → ℕ → ℕ → Voter → ℕ × Voter → Type 0
Waited n r d v (c, u) =
    Goes v u
    × (((c ≡ d + 1) × (u.fault_index ≡ v.fault_index) × (0 < count_at u.replicas r (stop_pipe v)))
        ⊎ ((c ≡ d) × (u.fault_index ≡ r)))

own_loop-Waited :
    (n r : ℕ) (ws : List Wake) (d : ℕ) (v : Voter) (x : ℕ × Voter)
    → NoneAtEnd ws
    → Shaped n v.out_pipe_count v.replicas
    → r < n
    → own_loop r ws d v ≡ some x
    → Waited n r d v x
unfolding own_loop
own_loop-Waited n r [] d v x ok shape r_in h = absurd (cc h)
own_loop-Waited n r (w ∷ ws) d v x (ok, oks) shape r_in h =
    let s = swept-Swept r w d v ok in
    let moved : Goes v (stored r w d v) = record {
      grows = s.grows;
      stop = refl;
      outs = refl;
      reps = refl;
    } in
    elim (Bool-cases (ltz (pos w.elapsed) v.voting_timeout)) [
      | inr late ↦ subst (Waited n r d v) (some-injective _ _ (rw (late, own_loop) at h)) (
        record { grows = same_reps v.replicas; stop = refl; outs = refl; reps = refl },
        inr (refl, refl),
      )
      | inl time ↦ elim (Bool-cases (swept r w d v).done) [
        | inl e ↦
            subst (Waited n r d v) (some-injective _ _ (rw (time, e, own_loop) at h))
              (moved, inl (answered e, refl, s.answered n shape r_in e))
        | inr e ↦
            let (goes, ended) =
              own_loop-Waited n r ws (swept r w d v).rep_done (stored r w d v) x oks
                (s.grows.shaped n v.out_pipe_count shape) r_in (rw (time, e, own_loop) at h) in
            (then-Goes moved goes, ground (arith, ended, unanswered e))
      ]
    ]
  where
    answered : (swept r w d v).done ≡ true → (swept r w d v).rep_done ≡ d + 1
    answered e = ground (arith, swept-Seen r w d v)

    unanswered : (swept r w d v).done ≡ false → (swept r w d v).rep_done ≡ d
    unanswered e = ground (arith, swept-Seen r w d v)

-- Replica `s` has output on the pipe that counts.
abbrev Has : Voter → Voter → ℕ → Type 0
Has v u s = 0 < count_at u.replicas s (stop_pipe v)

-- The outcome of `n` replicas from `r` on: if all are counted, all have output; if one is missing, all
-- but the one to blame.
pub record Outcomes (n r d : ℕ) (v u : Voter) (c : ℕ) : Type 0 where
  pub goes : Goes v u
  bound : c ≤ d + n
  pub all : c ≡ d + n → (s : ℕ) → r ≤ s → s < r + n → Has v u s
  blame : c ≡ d + n → u.fault_index ≡ v.fault_index
  pub one : c + 1 ≡ d + n → (s : ℕ) → r ≤ s → s < r + n → s ≢ u.fault_index → Has v u s

module _ (w : SingleWorld) (active total : ℕ) (ok : (r : ℕ) → NoneAtEnd (w.answers r)) where
  -- One replica, and then the others.
  joined :
      (n r d : ℕ) (v u t : Voter) (c c' : ℕ)
      → Goes v u
      → ((c ≡ d + 1) × (u.fault_index ≡ v.fault_index) × Has v u r)
        ⊎ ((c ≡ d) × (u.fault_index ≡ r))
      → Outcomes n (r + 1) c u t c'
      → Outcomes (suc n) r d v t c'
  joined n r d v u t c c' moved ended rest = record {
    goes = then-Goes moved rest.goes;
    bound = ground (arith, ended, rest.bound);
    all = λ e s lo hi. elim ended [
      | inr (low, _) ↦ absurd (omega (arith, rest.bound))
      | inl (counted, _, has) ↦ each e s lo hi counted has
    ];
    blame = λ e. elim ended [
      | inr (low, _) ↦ absurd (omega (arith, rest.bound))
      | inl (counted, same, _) ↦ rest.blame (omega arith) ∙ same
    ];
    one = λ e s lo hi ne. elim ended [
      | inr (low, late) ↦
          let to_blame : t.fault_index ≡ r = rest.blame (omega arith) ∙ late in
          has_moved s (rest.all (omega arith) s (ground (arith, to_blame)) (omega arith))
      | inl (counted, _, has) ↦ elim (lt-cases r s) [
        | inl (_, later) ↦ has_moved s (rest.one (omega arith) s (omega arith) (omega arith) ne)
        | inr (_, first) ↦
            let same : r ≡ s = omega arith in
            subst (Has v t) same (rest.goes.grows.mono r (stop_pipe v) has)
      ]
    ];
  }
    where
      has_moved : (s : ℕ) → Has u t s → Has v t s
      has_moved s h = subst (λ q. 0 < count_at t.replicas s q) moved.stop h

      each : c' ≡ d + suc n → (s : ℕ) → r ≤ s → s < r + suc n → c ≡ d + 1 → Has v u r → Has v t s
      each e s lo hi counted has = elim (lt-cases r s) [
        | inl (_, later) ↦ has_moved s (rest.all (omega arith) s (omega arith) (omega arith))
        | inr (_, first) ↦
            let same : r ≡ s = omega arith in
            subst (Has v t) same (rest.goes.grows.mono r (stop_pipe v) has)
      ]

  pub serve-Outcomes :
      (n r d : ℕ) (v u : Voter) (c : ℕ)
      → Shaped total v.out_pipe_count v.replicas
      → r + n ≤ total
      → serve w true active n r d v ≡ some (c, u)
      → Outcomes n r d v u c
  unfolding serve
  serve-Outcomes zero r d v u c shape inside h =
      let e = some-injective _ _ h in
      subst (λ (x : ℕ × Voter). Outcomes zero r d v x.1 x.0) e
        (record {
          goes = record { grows = same_reps v.replicas; stop = refl; outs = refl; reps = refl };
          bound = omega arith;
          all = λ _ s lo hi. absurd (omega arith);
          blame = λ _. refl;
          one = λ _ s lo hi _. absurd (omega arith);
        })
  serve-Outcomes (suc n) r d v u c shape inside h =
      elim (Option-cases (own_loop r (w.answers r) d (asked w active r v))) [
        | inl e ↦ absurd (cc (rw (e, serve) at h))
        | inr ((c1, u1), e) ↦
            let start = asked w active r v in
            let to_start = asked-Goes w active r v in
            let (goes, ended) =
              own_loop-Waited total r (w.answers r) d start (c1, u1) (ok r)
                (subst (λ out. Shaped total out start.replicas) (sym to_start.outs)
                  (to_start.grows.shaped total v.out_pipe_count shape))
                (omega arith) e in
            let lowered = set_priority-Goes (w.lowered r) r (u1.voter_priority -ℤ pos 4) u1 in
            let back = set_priority (w.lowered r) r (u1.voter_priority -ℤ pos 4) u1 in
            let moved = then-Goes to_start (then-Goes goes lowered) in
            let rest =
              serve-Outcomes n (r + 1) c1 back u c
                (subst (λ out. Shaped total out back.replicas) (sym moved.outs)
                  (moved.grows.shaped total v.out_pipe_count shape))
                (omega arith) (rw (e, serve) at h) in
            joined n r d v back u c1 c moved
              (elim ended [
                | inr (same, late) ↦ inr (
                  same,
                  (set_priority_flags (w.lowered r) r (u1.voter_priority -ℤ pos 4) u1).1 ∙ late,
                )
                | inl (one_more, kept, has) ↦ inl (
                  one_more,
                  (set_priority_flags (w.lowered r) r (u1.voter_priority -ℤ pos 4) u1).1
                      ∙ kept
                      ∙ (set_priority_flags (w.raised r) r (v.voter_priority -ℤ pos 1) (
                          issue (write_to (fd_in_at v.replicas r active) v.ext_in_bytes ∷ []) v)).1,
                  lowered.grows.mono r (stop_pipe v)
                      (subst (λ q. 0 < count_at u1.replicas r q) to_start.stop has),
                )
              ])
              rest
      ]
