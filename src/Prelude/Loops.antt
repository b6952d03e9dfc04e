-- ===== src/Prelude/Loops.antt =====
-- Counted loops: `for (k = first; k < first + rounds; k++) state = step(k, state);`
use Prim.Native.Nat.{ℕ, zero, suc, ◌+◌, ◌<◌, ◌≤◌}
use mathlib.Core.Path.{◌≡◌, subst}
use native.Mathlib.Omega.{arith}

unfoldable pub for_range {ℓ} :
    {State : Type ℓ} (rounds first : ℕ) (step : ℕ → State → State) → State → State
for_range zero first step state = state
for_range (suc rounds) first step state = for_range rounds (first + 1) step (step first state)

-- What holds before the first round, and survives each round in range, holds at the end.
pub for_range_inv {ℓ κ} :
    {State : Type ℓ} (Inv : ℕ → State → Type κ) (step : ℕ → State → State) (rounds first last : ℕ)
    (state : State)
    → first + rounds ≡ last
    → ((k : ℕ) (t : State) → first ≤ k → k < last → Inv k t → Inv (k + 1) (step k t))
    → Inv first state
    → Inv last (for_range rounds first step state)
unfolding for_range
for_range_inv Inv step zero first last state count survives holds =
    let same : first ≡ last = omega arith in subst (λ k. Inv k state) same holds
for_range_inv Inv step (suc rounds) first last state count survives holds =
    let later = λ (k : ℕ) (t : _) (lo : first + 1 ≤ k). survives k t (omega arith) in
    for_range_inv Inv step rounds (first + 1) last (step first state) (omega arith) later
      (survives first state (omega arith) (omega arith) holds)
