-- ===== src/Prelude/Fill.antt =====
-- Loops that assign to one place of an array after the other.
use Prim.Native.Nat.{ℕ, ◌≤◌, ◌<◌}
use mathlib.Core.Path.{◌≡◌, refl, ap, subst, ◌∙◌}
use mathlib.Core.Logic.{inl, inr}
use mathlib.Core.List.{List}
use native.Mathlib.Omega.{arith}
use s3res.Prelude.Tests.{lt-cases}
use s3res.Prelude.Lists.{length, get_or, set, length-set, get_or-set_self, get_or-set_ne}
use s3res.Prelude.Loops.{for_range, for_range_inv}

-- A loop that fills the places of a list from what stands there leaves at each place below its end
-- what its round puts there.
pub for_range-set {ℓ} :
    {A : Type ℓ} (n : ℕ) (f : ℕ → A → A) (xs : List A) (d : A)
    → n ≤ length xs
    → (i : ℕ) → i < n
    → get_or (for_range n 0 (λ i ys. set ys i (f i (get_or ys i d))) xs) i d ≡ f i (get_or xs i d)
for_range-set n f xs d h i i_in =
    (for_range_inv
        (λ k ys.
          (length ys ≡ length xs)
          × ((i : ℕ) → i < k → get_or ys i d ≡ f i (get_or xs i d))
          × ((i : ℕ) → k ≤ i → get_or ys i d ≡ get_or xs i d))
        (λ i ys. set ys i (f i (get_or ys i d))) n 0 n xs (omega arith)
        (λ k ys _ below (len, old, rest). (
          length-set ys k _ ∙ len,
          (λ i i_below. elim (lt-cases i k) [
            | inl (_, earlier) ↦ get_or-set_ne ys _ d (omega arith) ∙ old i earlier
            | inr (_, now) ↦
                let same : k ≡ i = omega arith in
                subst (λ j. get_or (set ys k (f k (get_or ys k d))) j d ≡ f j (get_or xs j d)) same
                  (get_or-set_self ys k _ d (omega arith) ∙ ap (f k) (rest k (omega arith)))
          ]),
          (λ i over. get_or-set_ne ys _ d (omega arith) ∙ rest i (omega arith)),
        ))
        (refl, (λ i h. absurd (omega arith)), (λ i h. refl))).1
      i i_in
