-- ===== src/Replicas/Least.antt =====
-- `bytesReady`, `aheadRep` and `behindRep` pick the least and the most of what the replicas hold.
use s3res.Prelude.{
  ℕ, ◌-◌, ◌<◌, ◌≤◌, ◌≡◌, ◌↔◌, ◌⊎◌, inl, inr, false, List, ltb, lt-cases, if◌then◌else◌,
  for_range_inv, arith,
}
use s3res.Prelude.Int.{ltz}
use s3res.VoteBuff.{max_vote_pipe_buff}
use s3res.Replicas.{Replica, rep_of, held}
use s3res.Replicas.Count.{bytes_ready, behind_round, behind_rep}

-- No replica holds less than `bytesReady`.
pub bytes_ready_le :
    (reps : List Replica) (num p r : ℕ) → r < num → bytes_ready reps num p ≤ held reps r p
unfolding bytes_ready
bytes_ready_le reps num p r inside =
    for_range_inv (λ k least. (s : ℕ) → s < k → least ≤ held reps s p)
      (λ s min. if ltb (held reps s p) min then held reps s p else min) num 0 num max_vote_pipe_buff
      (omega arith)
      (λ k least _ _ old s below. elim (lt-cases s k) [
        | inl (_, earlier) ↦ ground (arith, old s earlier)
        | inr (_, now) ↦ let same : s ≡ k = omega arith in rw same (ground arith)
      ])
      (λ s below. absurd (omega arith)) r inside

-- Every lower bound of what the replicas hold is one of the result.
greatest :
    (reps : List Replica) (num p n : ℕ)
    → n ≤ max_vote_pipe_buff
    → ((r : ℕ) → r < num → n ≤ held reps r p)
    → n ≤ bytes_ready reps num p
unfolding bytes_ready
greatest reps num p n fits each =
    for_range_inv (λ _ least. n ≤ least)
      (λ s min. if ltb (held reps s p) min then held reps s p else min) num 0 num max_vote_pipe_buff
      (omega arith) (λ k least _ below h. ground (arith, each k below)) fits

pub bytes_ready_fits :
    (reps : List Replica) (num p : ℕ) → bytes_ready reps num p ≤ max_vote_pipe_buff
unfolding bytes_ready
bytes_ready_fits reps num p =
    for_range_inv (λ _ least. least ≤ max_vote_pipe_buff)
      (λ s min. if ltb (held reps s p) min then held reps s p else min) num 0 num max_vote_pipe_buff
      (omega arith) (λ k least _ _ h. ground arith) (omega arith)

-- `bytesReady` is the greatest number of bytes, 4096 at most, that every replica holds: as many
-- bytes are ready exactly if they fit the buffer and each of the replicas holds them.
pub bytes_ready_iff :
    (reps : List Replica) (num p n : ℕ)
    → (n ≤ bytes_ready reps num p)
      ↔ ((n ≤ max_vote_pipe_buff) × ((r : ℕ) → r < num → n ≤ held reps r p))
bytes_ready_iff reps num p n = (
  (λ h. (
    omega (arith, bytes_ready_fits reps num p),
    (λ r inside. omega (arith, h, bytes_ready_le reps num p r inside)),
  )),
  (λ (fits, each). greatest reps num p n fits each),
)

-- `b` holds no more than `r`, and has no lower a priority if both hold the same.
abbrev NoBetter : List Replica → ℕ → ℕ → ℕ → Type 0
NoBetter reps p b r =
    (held reps b p < held reps r p)
    ⊎ ((held reps b p ≡ held reps r p)
        × (ltz (rep_of reps b).priority (rep_of reps r).priority ≡ false))

behind_round_keeps :
    (reps : List Replica) (p k b s : ℕ)
    → NoBetter reps p b s
    → NoBetter reps p (behind_round reps p k b) s
unfolding behind_round
behind_round_keeps reps p k b s h = ground arith

behind_round_new : (reps : List Replica) (p k b : ℕ) → NoBetter reps p (behind_round reps p k b) k
unfolding behind_round
behind_round_new reps p k b = ground arith

behind_round_in :
    (reps : List Replica) (p k b num : ℕ) → k < num → b < num → behind_round reps p k b < num
unfolding behind_round
behind_round_in reps p k b num h i = ground arith

-- The replica that `behindRep` answers is one of the array. None holds less on the pipe, and of
-- those that hold as little none has a higher priority.
pub behind_rep_lem :
    (reps : List Replica) (num p : ℕ)
    → 0 < num
    → let b = behind_rep reps num p in
      (b < num)
      × ((r : ℕ)
          → r < num
          → (held reps b p < held reps r p)
            ⊎ ((held reps b p ≡ held reps r p)
                × (ltz (rep_of reps b).priority (rep_of reps r).priority ≡ false)))
unfolding behind_rep
behind_rep_lem reps num p h =
    for_range_inv (λ k b. (b < num) × ((r : ℕ) → r < k → NoBetter reps p b r)) (behind_round reps p)
      (num - 1) 1 num 0 (omega arith)
      (λ k b _ below (inside, old). (
        behind_round_in reps p k b num below inside,
        (λ r before. elim (lt-cases r k) [
          | inl (_, earlier) ↦ behind_round_keeps reps p k b r (old r earlier)
          | inr (_, now) ↦ let same : r ≡ k = omega arith in rw same (behind_round_new reps p k b)
        ]),
      ))
      (h, (λ r before. let same : r ≡ 0 = omega arith in rw same (ground arith)))
