-- ===== src/VoterD/Majority.antt =====
-- With three replicas of which two hold the same bytes, the vote on a pipe sends those bytes, and
-- replaces nobody but the third.
use s3res.Prelude.{
  ℕ, zero, suc, ◌<◌, ◌≤◌, ◌≡◌, ◌≢◌, ◌↔◌, inl, inr, sym, ◌∙◌, List, take, Bool, true, false,
  Bool-cases, arith,
}
use s3res.Sys.{MemCmp, same, differs}
use s3res.VoteBuff.{VotePipe, compare_buffs}
use s3res.VoteBuff.Inv.{IsValid}
use s3res.VoteBuff.Ring.{contents}
use s3res.VoteBuff.Compare.{compare_buffs_iff}
use s3res.Replicas.{Replica, vot_of, held}
use s3res.VoterD.Vote.{Choice, send, replace, tmr_choice}

-- The two rings stand at the same index, and their oldest `n` bytes are equal.
abbrev pub SameFront : ℕ → VotePipe → VotePipe → Type 0
SameFront n a b = (a.buff_index ≡ b.buff_index) × (take n (contents a) ≡ take n (contents b))

-- On pipe `p`, all of the three replicas but `f` hold the same oldest `n` bytes.
abbrev pub OthersAgree : List Replica → ℕ → ℕ → ℕ → Type 0
OthersAgree reps p n f =
    (r s : ℕ) → r < 3 → s < 3 → r ≢ f → s ≢ f → SameFront n (vot_of reps r p) (vot_of reps s p)

-- The three rings are valid and hold `n` bytes.
abbrev pub Ready : List Replica → ℕ → ℕ → Type 0
Ready reps p n = (r : ℕ) → r < 3 → IsValid (vot_of reps r p) × (n ≤ held reps r p)

-- What a choice must be, if all but `f` agree: it sends what they hold, from them or from a replica
-- that holds the same, or it replaces `f` from one of them.
pub data Masks (reps : List Replica) (p n f : ℕ) : Choice → Type 0 where
  sends :
      {c : ℕ}
      → c < 3
      → ((g : ℕ) → g < 3 → g ≢ f → SameFront n (vot_of reps c p) (vot_of reps g p))
      → Masks reps p n f (send c)
  replaces : {b : ℕ} → b < 3 → b ≢ f → Masks reps p n f (replace f b)

differs_iff : (m : MemCmp) → (differs m ≡ false) ↔ (m ≡ same)
differs_iff m = ground arith

module _ (reps : List Replica) (p n : ℕ) (ready : Ready reps p n) where
  abbrev Front : ℕ → ℕ → Type 0
  Front r s = SameFront n (vot_of reps r p) (vot_of reps s p)

  abbrev differ : ℕ → ℕ → Bool
  differ r s = differs (compare_buffs (vot_of reps r p) (vot_of reps s p) n)

  differ_iff : (r s : ℕ) → r < 3 → s < 3 → (differ r s ≡ false) ↔ Front r s
  differ_iff r s h k =
      let cmp = compare_buffs (vot_of reps r p) (vot_of reps s p) n in
      let iff =
        compare_buffs_iff (vot_of reps r p) (vot_of reps s p) n (ready r h).0 (ready s k).0
          (ready r h).1 (ready s k).1 in
      ((λ e. iff.0 ((differs_iff cmp).0 e)), (λ front. (differs_iff cmp).1 (iff.1 front)))

  alike : (r s : ℕ) → r < 3 → s < 3 → Front r s → differ r s ≡ false
  alike r s h k = (differ_iff r s h k).1

  -- A replica that differs from one differs from whatever agrees with that one.
  differ_via :
      (r s t : ℕ) → r < 3 → s < 3 → t < 3 → Front s t → differ r s ≡ true → differ r t ≡ true
  differ_via r s t h k l (i, e) apart = elim (Bool-cases (differ r t)) [
    | inl d ↦ d
    | inr d ↦
        let (j, c) = (differ_iff r t h l).0 d in
        let again : differ r s ≡ false = alike r s h k (j ∙ sym i, c ∙ sym e) in ground arith
  ]

  differ_sym : (r s : ℕ) → r < 3 → s < 3 → differ r s ≡ true → differ s r ≡ true
  differ_sym r s h k apart = elim (Bool-cases (differ s r)) [
    | inl d ↦ d
    | inr d ↦
        let (j, c) = (differ_iff s r k h).0 d in
        let again : differ r s ≡ false = alike r s h k (sym j, sym c) in ground arith
  ]

  odd_0 : OthersAgree reps p n 0 → Masks reps p n 0 (tmr_choice reps 3 p n 3 0)
  unfolding tmr_choice
  odd_0 agree =
      let pair : Front 1 2 = agree 1 2 (omega arith) (omega arith) (omega arith) (omega arith) in
      elim (Bool-cases (differ 0 1)) [
        | inl apart ↦
            rw
              (
                apart,
                alike 1 2 (omega arith) (omega arith) pair,
                differ_sym 0 1 (omega arith) (omega arith) apart,
              )
              (replaces {b = 1} (omega arith) (omega arith))
        | inr e ↦
            let (i, c) = (differ_iff 0 1 (omega arith) (omega arith)).0 e in
            rw (e, alike 0 2 (omega arith) (omega arith) (i ∙ pair.0, c ∙ pair.1))
              (sends {c = 0} (omega arith) (λ g h other.
                let (j, k) = agree 1 g (omega arith) h (omega arith) other in (i ∙ j, c ∙ k)))
      ]

  odd_1 : OthersAgree reps p n 1 → Masks reps p n 1 (tmr_choice reps 3 p n 3 0)
  unfolding tmr_choice
  odd_1 agree =
      let pair : Front 0 2 = agree 0 2 (omega arith) (omega arith) (omega arith) (omega arith) in
      elim (Bool-cases (differ 0 1)) [
        | inl apart ↦
            let apart' = differ_sym 0 1 (omega arith) (omega arith) apart in
            let apart2 = differ_via 1 0 2 (omega arith) (omega arith) (omega arith) pair apart' in
            rw
              (
                apart,
                apart2,
                alike 2 0 (omega arith) (omega arith) (sym pair.0, sym pair.1),
                differ_sym 1 2 (omega arith) (omega arith) apart2,
              )
              (replaces {b = 2} (omega arith) (omega arith))
        | inr e ↦
            rw (e, alike 0 2 (omega arith) (omega arith) pair)
              (sends {c = 0} (omega arith)
                (λ g h other. agree 0 g (omega arith) h (omega arith) other))
      ]

  odd_2 : OthersAgree reps p n 2 → Masks reps p n 2 (tmr_choice reps 3 p n 3 0)
  unfolding tmr_choice
  odd_2 agree =
      let pair : Front 0 1 = agree 0 1 (omega arith) (omega arith) (omega arith) (omega arith) in
      elim (Bool-cases (differ 0 2)) [
        | inl apart ↦
            rw (alike 0 1 (omega arith) (omega arith) pair, apart)
              (replaces {b = 0} (omega arith) (omega arith))
        | inr e ↦
            rw (alike 0 1 (omega arith) (omega arith) pair, e)
              (sends {c = 0} (omega arith)
                (λ g h other. agree 0 g (omega arith) h (omega arith) other))
      ]

-- With three replicas whose rings are valid and hold `n` bytes on pipe `p`, of which all but `f` agree
-- on these bytes, the vote decides: it sends from a replica that holds what the others agree on, or
-- it replaces `f`, from one of the others.
pub tmr_choice-Masks :
    (reps : List Replica) (p n f : ℕ)
    → f < 3
    → Ready reps p n
    → OthersAgree reps p n f
    → Masks reps p n f (tmr_choice reps 3 p n 3 0)
tmr_choice-Masks reps p n zero h ready agree = odd_0 reps p n ready agree
tmr_choice-Masks reps p n (suc zero) h ready agree = odd_1 reps p n ready agree
tmr_choice-Masks reps p n (suc (suc zero)) h ready agree = odd_2 reps p n ready agree
tmr_choice-Masks reps p n (suc (suc (suc f))) h ready agree = absurd (omega arith)
