-- ===== src/VoterM/Tests/Stages.antt =====
-- The theorems on the stages of the voter at concrete data.
use s3res.Prelude.{
  ℕ, zero, suc, ◌<◌, ◌≤◌, ◌≡◌, ◌↔◌, ◌⊎◌, refl, true, false, none, some, List, [], ◌∷◌, length,
  length-replicate, get_or, arith,
}
use s3res.Prelude.Int.{pos, ltz}
use s3res.Sys.{got, Wake}
use s3res.VoterM.State.{Voter}
use s3res.VoterM.Input.{recv_data}
use s3res.VoterM.Input.Props.{FirstInput, SilentTo, recv_data-FirstInput}
use s3res.VoterM.Collect.{collect_from_reps}
use s3res.VoterM.Collect.Bounds.{
  RepIsValid, RepsAreValid, ReadsOk, at_end, next, SameShape, collect_from_reps-IsValid,
}
use s3res.VoterM.Collect.Done.{collect_from_reps-timeout_iff, collect_from_reps-returns}
use s3res.VoterM.Recover.{kill_and_clean}
use s3res.VoterM.Recover.Kill.{Killed, kill_and_clean-Killed}
use s3res.VoterM.Init.{Memory, init_voter}
use s3res.VoterM.Init.Valid.{init_voter-IsValid}
use s3res.VoterM.Tests.{spawning, spawning-Responsive, rep_with, flipped, storage, idle, wake_at}

pub full_rep-IsValid : (k : ℕ) → RepIsValid 1 (rep_with k [] storage)
full_rep-IsValid k = record { counts = refl; buffers = refl; storage = full; fits = empty }
  where
    full : (p : ℕ) → p < 1 → length (get_or (rep_with k [] storage).buffers p []) ≡ 4096
    full zero h = length-replicate {A = ℕ} 4096 0
    full (suc p) h = absurd (omega arith)

    empty : (p : ℕ) → p < 1 → get_or (rep_with k [] storage).buff_counts p 0 ≤ 4096
    empty zero h = omega arith
    empty (suc p) h = absurd (omega arith)

idle-IsValid : RepsAreValid 2 1 idle.replicas
idle-IsValid zero h = full_rep-IsValid 0
idle-IsValid (suc zero) h = full_rep-IsValid 1
idle-IsValid (suc (suc r)) h = absurd (omega arith)

-- Both replicas answer in the first sleep; else the second finds that the time is up.
abbrev waits : List Wake
waits = wake_at 100 ∷ wake_at 5000 ∷ []

waits-ReadsOk : ReadsOk waits
waits-ReadsOk = next (read_ok 100) (next (read_ok 5000) at_end)
  where
    read_ok :
        (t fd : ℕ) → (bytes : List ℕ) × ((wake_at t).reads fd ≡ got bytes) × (length bytes ≤ 4096)
    read_ok t fd = (7 ∷ 8 ∷ [], refl, omega arith)

collect_from_reps-returns_example : (r : ℕ × Voter) × (collect_from_reps true 2 waits idle ≡ some r)
collect_from_reps-returns_example =
    collect_from_reps-returns 2 (wake_at 100 ∷ []) [] (wake_at 5000) idle late
  where
    late : ltz (pos 5000) (pos 4000) ≡ false
    late = refl

abbrev collected : (r : ℕ × Voter) × (collect_from_reps true 2 waits idle ≡ some r)
collected = collect_from_reps-returns 2 (wake_at 100 ∷ []) [] (wake_at 5000) idle refl

collect_from_reps-IsValid_example :
    let u = collected.0.1 in RepsAreValid u.rep_count u.out_pipe_count u.replicas × SameShape idle u
collect_from_reps-IsValid_example =
    collect_from_reps-IsValid true 2 waits idle waits-ReadsOk idle-IsValid collected.1

collect_from_reps-timeout_iff_example :
    (collected.0.1.timeout_occurred ≡ true) ↔ (collected.0.0 < 2)
collect_from_reps-timeout_iff_example =
    collect_from_reps-timeout_iff true 2 waits idle (omega arith) collected.1

recv_data-FirstInput_example :
    let (received, u) = recv_data (wake_at 0) idle in
    ((received ≡ true)
      × ((j : ℕ) × (u.active_pipe_index ≡ some j) × FirstInput (wake_at 0) idle j u.ext_in_bytes))
    ⊎ ((received ≡ false) × (u.active_pipe_index ≡ none) × SilentTo (3 ∷ []) (wake_at 0) (3 ∷ []) 1)
recv_data-FirstInput_example = recv_data-FirstInput (wake_at 0) idle refl

kill_and_clean-Killed_example : Killed 2 flipped (kill_and_clean 2 flipped)
kill_and_clean-Killed_example = kill_and_clean-Killed 2 flipped

-- memory that holds zeros
abbrev zeros : Memory
zeros = record {
  pid = λ _. 0;
  fd_in = λ _ _. 0;
  fd_out = λ _ _. 0;
  buff_count = λ _ _. 0;
  byte = λ _ _ _. 0;
}

init_voter-IsValid_example :
    (u : Voter) × (init_voter zeros zeros spawning idle ≡ some u) × RepsAreValid 2 1 u.replicas
init_voter-IsValid_example =
    init_voter-IsValid zeros zeros spawning idle spawning-Responsive (λ r p. omega arith)
