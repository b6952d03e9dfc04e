-- ===== src/VoterM/Tests/Single.antt =====
-- The theorems on the voter for a single core at concrete data.
use s3res.Prelude.{
  length-write_at, arith, ◌≢◌, Option, none, List, ◌∷◌, zero, suc, length, ◌+◌, ◌%◌, ℕ, ◌<◌, ◌≡◌,
  ◌⊎◌, refl, for_range, true, false, some, [], ◌∷◌,
}
use s3res.Prelude.Int.{pos}
use s3res.VoterM.State.{Voter}
use s3res.VoterM.Input.{check_wait_on_input}
use s3res.VoterM.Single.{SingleWorld, send_collect}
use s3res.VoterM.Single.Count.{send_collect-counts}
use s3res.VoterM.Single.Returns.{TimeEnds, send_collect-returns}
use s3res.VoterM.State.{rep_at, count_at}
use s3res.Sys.{Wake, fd_set_has}
use s3res.VoterM.Collect.{stop_pipe, store_read}
use s3res.VoterM.Send.Props.{AnswersFit}
use s3res.VoterM.Turn.Masking.{all_answers, Delivers}
use s3res.VoterM.Single.{set_priority, own_fd_set, own_pipe, own_loop, serve, expire_single}
use s3res.VoterM.Single.Answered.{Shaped, NoneAtEnd}
use s3res.VoterM.Single.OneLate.{one_late_masks}
use s3res.VoterM.Tests.{rep_with, voter_of, idle, wake_at, spawning-Responsive, spawning}

-- Every replica answers in its first sleep; else the second finds that the time is up.
abbrev single_world : SingleWorld
single_world = record {
  input = wake_at 0;
  answers = λ _. wake_at 100 ∷ wake_at 5000 ∷ [];
  raised = λ _. true;
  lowered = λ _. true;
  retry = [];
  spawn = spawning;
}

idle_expects : check_wait_on_input idle ≡ true
unfolding check_wait_on_input for_range
idle_expects = refl

single_world-TimeEnds : (k : ℕ) → TimeEnds (pos 4000) (single_world.answers k)
single_world-TimeEnds k = (wake_at 100 ∷ [], wake_at 5000, [], refl, refl)

abbrev returned : (n : ℕ) × (u : Voter) × (send_collect single_world idle ≡ some (some n, u))
returned = send_collect-returns single_world idle 0 refl idle_expects single_world-TimeEnds

send_collect-returns_example :
    (n : ℕ) × (u : Voter) × (send_collect single_world idle ≡ some (some n, u))
send_collect-returns_example =
    send_collect-returns single_world idle 0 refl idle_expects single_world-TimeEnds

send_collect-counts_example :
    let (n, u, _) = returned in
    ((n ≡ 2) × (u.timeout_occurred ≡ false))
    ⊎ ((n < 2) × (u.timeout_occurred ≡ true) × (u.fault_index < 2))
send_collect-counts_example =
    send_collect-counts single_world idle 0 returned.0 returned.1 refl idle_expects returned.2

-- Two replicas; the first does not answer in time, the second does.
abbrev two_idle : Voter
two_idle = voter_of (rep_with 0 [] (0 ∷ 0 ∷ []) ∷ rep_with 1 [] (0 ∷ 0 ∷ []) ∷ [])

abbrev first_late : ℕ → List Wake
first_late zero = wake_at 5000 ∷ []
first_late (suc r) = wake_at 100 ∷ []

abbrev late_world : SingleWorld
late_world = record single_world { answers = first_late }

abbrev state_of : Option (Option ℕ × Voter) → Voter
state_of none = two_idle
state_of (some (n, u)) = u

abbrev one_late : Voter
one_late = state_of (send_collect late_world two_idle)

one_answers : send_collect late_world two_idle ≡ some (some 1, one_late)
unfolding send_collect serve own_loop own_pipe own_fd_set set_priority store_read
    check_wait_on_input for_range fd_set_has
one_answers = refl

two_idle-expects : check_wait_on_input two_idle ≡ true
unfolding check_wait_on_input for_range
two_idle-expects = refl

two_idle-Shaped : Shaped 2 1 two_idle.replicas
two_idle-Shaped = (omega arith, sizes)
  where
    sizes : (s : ℕ) → s < 2 → length (rep_at two_idle.replicas s).buff_counts ≡ 1
    sizes zero h = refl
    sizes (suc zero) h = refl
    sizes (suc (suc s)) h = absurd (omega arith)

late_world-NoneAtEnd : (r : ℕ) → NoneAtEnd (late_world.answers r)
late_world-NoneAtEnd zero = ((λ fd. omega arith), tt)
late_world-NoneAtEnd (suc r) = ((λ fd. omega arith), tt)

late_is : one_late.fault_index ≡ 0
unfolding send_collect serve own_loop own_pipe own_fd_set set_priority store_read
    check_wait_on_input for_range fd_set_has
late_is = refl

one_late-AnswersFit : (r : ℕ) → r < 2 → r ≢ one_late.fault_index → AnswersFit one_late.replicas r
unfolding send_collect serve own_loop own_pipe own_fd_set set_priority store_read
    check_wait_on_input for_range fd_set_has
one_late-AnswersFit zero h ne p = absurd (ne refl)
one_late-AnswersFit (suc zero) h ne zero =
    omega (arith, length-write_at {A = ℕ} (0 ∷ 0 ∷ []) 0 (7 ∷ 8 ∷ []))
one_late-AnswersFit (suc zero) h ne (suc p) = omega arith
one_late-AnswersFit (suc (suc r)) h ne p = absurd (omega arith)

one_late_masks_example :
    let h = (one_late.fault_index + 1) % 2 in
    ((s : ℕ)
      → s < 2
      → s ≢ one_late.fault_index
      → 0 < count_at one_late.replicas s (stop_pipe two_idle))
    × (h < 2)
    × (h ≢ one_late.fault_index)
    × Delivers one_late (all_answers one_late h) (expire_single late_world one_late)
one_late_masks_example =
    one_late_masks late_world two_idle 0 1 one_late refl two_idle-expects (omega arith)
      two_idle-Shaped late_world-NoneAtEnd spawning-Responsive one_answers refl one_late-AnswersFit
