-- ===== src/Runs.antt =====
-- How an operation of a voter ends, and reasoning about it.
use s3res.Prelude.{ℕ, zero, suc, ◌+◌, ◌<◌, ◌≤◌, ◌≡◌, subst, arith}

-- How an operation ends. `broken`: the count of a ring buffer would fall below zero.
pub data Run (State : Type 0) : Type 0 where
  running : State → Run State
  exited broken : Run State

-- one operation, and the next if the program still runs
infixl 20 ◌then_do◌
unfoldable pub ◌then_do◌ : {State : Type 0} → Run State → (State → Run State) → Run State
running d then_do next = next d
exited then_do next = exited
broken then_do next = broken

-- a counted loop of operations
unfoldable pub for_run : {State : Type 0} → ℕ → ℕ → (ℕ → State → Run State) → State → Run State
for_run zero first round d = running d
for_run (suc n) first round d = round first d then_do (λ u. for_run n (first + 1) round u)

-- The operation does not break; where it goes on, the state has a property, and where the process
-- exits, `Exit` holds.
abbrev pub Ends : {State : Type 0} → Type 0 → (State → Type 0) → Run State → Type 0
Ends Exit P (running d) = P d
Ends Exit P exited = Exit
Ends Exit P broken = ⊥

pub then_do-Ends :
    {State : Type 0} (Exit : Type 0) (P Q : State → Type 0) (run : Run State)
    (next : State → Run State)
    → Ends Exit P run
    → ((d : State) → P d → Ends Exit Q (next d))
    → Ends Exit Q (run then_do next)
unfolding ◌then_do◌
then_do-Ends Exit P Q (running d) next h k = k d h
then_do-Ends Exit P Q exited next h k = h
then_do-Ends Exit P Q broken next h k = absurd h

-- What holds before the first round, and survives each round in range, holds at the end.
pub for_run-Ends :
    {State : Type 0} (Exit : Type 0) (Inv : ℕ → State → Type 0) (round : ℕ → State → Run State)
    (n first last : ℕ) (d : State)
    → first + n ≡ last
    → ((k : ℕ) (u : State) → first ≤ k → k < last → Inv k u → Ends Exit (Inv (k + 1)) (round k u))
    → Inv first d
    → Ends Exit (Inv last) (for_run n first round d)
unfolding for_run
for_run-Ends Exit Inv round zero first last d e step h =
    let same : first ≡ last = omega arith in subst (λ k. Inv k d) same h
for_run-Ends Exit Inv round (suc n) first last d e step h =
    then_do-Ends Exit (Inv (first + 1)) (Inv last) (round first d) (for_run n (first + 1) round)
      (step first d (omega arith) (omega arith) h)
      (λ u k.
        for_run-Ends Exit Inv round n (first + 1) last u (omega arith)
          (λ i t (lo : first + 1 ≤ i). step i t (omega arith)) k)

pub weaken-Ends :
    {State : Type 0} (Exit : Type 0) (P Q : State → Type 0) (run : Run State)
    → ((d : State) → P d → Q d)
    → Ends Exit P run
    → Ends Exit Q run
weaken-Ends Exit P Q (running d) h k = h d k
weaken-Ends Exit P Q exited h k = k
weaken-Ends Exit P Q broken h k = k
