-- ===== src/Prelude/Totals.antt =====
-- Sums over ranges, and the places that two nested loops have passed.
use Prim.Native.Nat.{ℕ, zero, suc, ◌+◌, ◌*◌, ◌≤◌, ◌<◌}
use mathlib.Core.Path.{◌≡◌, refl, sym, ap, subst}
use mathlib.Core.Logic.{◌⊎◌, inl, inr}
use mathlib.Core.Bool.{Bool, true, ◌&&◌, ◌||◌}
use native.Mathlib.Omega.{arith}
use s3res.Prelude.Tests.{ltb, ◌==◌, if◌then◌else◌, Bool-cases}

abbrev pub one : Bool → ℕ
one b = if b then 1 else 0

pub one-bound : (b : Bool) → one b ≤ 1
one-bound b = ground arith

-- the sum of f(0), …, f(n - 1)
unfoldable pub total : ℕ → (ℕ → ℕ) → ℕ
total zero f = 0
total (suc n) f = f n + total n f

pub total-none : (f : ℕ → ℕ) → total 0 f ≡ 0
unfolding total
total-none f = refl

pub total-next : (n : ℕ) (f : ℕ → ℕ) → total (n + 1) f ≡ f n + total n f
unfolding total
total-next n f = let next : n + 1 ≡ suc n = omega arith in ap (λ k. total k f) next

pub total-le : (n : ℕ) (f g : ℕ → ℕ) → ((k : ℕ) → f k ≤ g k) → total n f ≤ total n g
unfolding total
total-le zero f g h = omega arith
total-le (suc n) f g h = omega (arith, h n, total-le n f g h)

last_or_before : (k n : ℕ) → k < suc n → (k ≡ n) ⊎ (k < n)
last_or_before k n h = ground arith

pub total-lt :
    (n : ℕ) (f g : ℕ → ℕ) (k : ℕ)
    → ((i : ℕ) → f i ≤ g i)
    → k < n
    → f k < g k
    → total n f < total n g
unfolding total
total-lt zero f g k h lt less = absurd (omega arith)
total-lt (suc n) f g k h lt less = elim (last_or_before k n lt) [
  | inl e ↦ omega (arith, subst (λ i. f i < g i) e less, total-le n f g h)
  | inr before ↦ omega (arith, h n, total-lt n f g k h before less)
]

pub total-bound : (n m : ℕ) (f : ℕ → ℕ) → ((k : ℕ) → f k ≤ m) → total n f ≤ n * m
unfolding total
total-bound zero m f h = omega arith
total-bound (suc n) m f h = ground (arith, h n, total-bound n m f h)

-- A part of the sum is at most the whole.
pub total-part : (n k : ℕ) (f : ℕ → ℕ) → k ≤ n → total k f ≤ total n f
unfolding total
total-part zero zero f h = omega arith
total-part zero (suc k) f h = absurd (omega arith)
total-part (suc n) k f h = elim (last_or_before k (suc n) (omega arith)) [
  | inl e ↦ rw e (omega arith)
  | inr before ↦ omega (arith, total-part n k f (omega arith))
]

-- Two nested loops have passed the place (a, c) before they come to (p, q).
abbrev pub passed : ℕ → ℕ → ℕ → ℕ → Bool
passed p q a c = ltb a p || (a == p && ltb c q)

-- One more place is passed, for any test of the places.
pub one-passed :
    (allowed : ℕ → ℕ → Bool) (p q next a c : ℕ)
    → next ≡ q + 1
    → one (passed p next a c && allowed a c)
      ≡ one (passed p q a c && allowed a c) + one (allowed p q && (p == a && (q == c)))
one-passed allowed p q next a c e' = elim (Bool-cases (p == a && (q == c))) [
  | inl e ↦
      let same_p : p ≡ a = ground arith in
      let same_q : q ≡ c = ground arith in rw (e', sym same_p, sym same_q) (ground arith)
  | inr e ↦ ground arith
]

total-add : (n : ℕ) (f g : ℕ → ℕ) → total n (λ k. f k + g k) ≡ total n f + total n g
unfolding total
total-add zero f g = omega arith
total-add (suc n) f g = omega (arith, total-add n f g)

-- The sum over a square of a grid.
abbrev pub square : ℕ → (ℕ → ℕ → ℕ) → ℕ
square n f = total n (λ a. total n (f a))

pub square-le : (n : ℕ) (f g : ℕ → ℕ → ℕ) → ((a c : ℕ) → f a c ≤ g a c) → square n f ≤ square n g
square-le n f g h =
    total-le n (λ a. total n (f a)) (λ a. total n (g a)) (λ a. total-le n (f a) (g a) (h a))

pub square-add :
    (n : ℕ) (f g : ℕ → ℕ → ℕ) → square n (λ a c. f a c + g a c) ≤ square n f + square n g
square-add n f g =
    let rows =
      total-le n (λ a. total n (λ c. f a c + g a c)) (λ a. total n (f a) + total n (g a))
        (λ a. omega (arith, total-add n (f a) (g a))) in
    omega (arith, total-add n (λ a. total n (f a)) (λ a. total n (g a)))

pub square-zero : (n : ℕ) (f : ℕ → ℕ → ℕ) → ((a c : ℕ) → f a c ≡ 0) → square n f ≡ 0
square-zero n f h =
    let rows = λ (a : ℕ). total-bound n 0 (f a) (λ c. omega (arith, h a c)) in
    let all = total-bound n 0 (λ a. total n (f a)) (λ a. omega (arith, rows a)) in omega arith

total-pick : (n x : ℕ) (b : Bool) → total n (λ k. one (b && (x == k))) ≡ one (b && ltb x n)
unfolding total
total-pick zero x b = ground arith
total-pick (suc n) x b = rw (total-pick n x b) (ground arith)

-- One place counts at most once.
pub square-pick : (n x y : ℕ) → square n (λ a c. one (x == a && (y == c))) ≤ 1
square-pick n x y =
    let rows =
      total-le n (λ a. total n (λ c. one (x == a && (y == c)))) (λ a. one (true && (x == a)))
        (λ a. le_one (x == a) (ltb y n) (total-pick n y (x == a))) in
    let column = one-bound (true && ltb x n) in omega (arith, total-pick n x true)
  where
    le_one : {k : ℕ} (p q : Bool) → k ≡ one (p && q) → k ≤ one p
    le_one p q e = ground arith
