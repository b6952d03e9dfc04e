-- ===== src/Prelude/Slices.antt =====
-- Blocks of an array: `memcpy(&dst[off], src, n)` and reads of a run of bytes.
use Prim.Native.Nat.{ℕ, zero, suc, ◌+◌, ◌<◌, ◌≤◌}
use mathlib.Core.Path.{◌≡◌, refl, ap, ◌∙◌}
use mathlib.Core.List.{List, [], ◌∷◌}
use native.Mathlib.Omega.{arith}
use s3res.Prelude.Lists.{
  length, get_or, take, drop, length-take, length-drop, get_or-drop, get_or-take,
}

module _ {ℓ} {A : Type ℓ} where
  -- the `n` elements from `off` on
  abbrev pub slice : ℕ → ℕ → List A → List A
  slice off n xs = take n (drop off xs)

  -- `xs` with `ys` laid over it from `off` on; what would go past the end is dropped
  abbrev pub write_at : List A → ℕ → List A → List A
  write_at [] _ _ = []
  write_at (x ∷ xs) zero [] = x ∷ xs
  write_at (x ∷ xs) zero (y ∷ ys) = y ∷ write_at xs zero ys
  write_at (x ∷ xs) (suc off) ys = x ∷ write_at xs off ys

  pub length-write_at :
      (xs : List A) (off : ℕ) (ys : List A) → length (write_at xs off ys) ≡ length xs
  length-write_at [] off ys = refl
  length-write_at (x ∷ xs) zero [] = refl
  length-write_at (x ∷ xs) zero (y ∷ ys) = ap suc (length-write_at xs zero ys)
  length-write_at (x ∷ xs) (suc off) ys = ap suc (length-write_at xs off ys)

  pub get_or-write_at_in :
      (xs : List A) (off : ℕ) (ys : List A) (i j : ℕ) (d : A)
      → i ≡ off + j
      → j < length ys
      → i < length xs
      → get_or (write_at xs off ys) i d ≡ get_or ys j d
  get_or-write_at_in [] off ys i j d e hj hi = absurd (omega arith)
  get_or-write_at_in (x ∷ xs) zero [] i j d e hj hi = absurd (omega arith)
  get_or-write_at_in (x ∷ xs) zero (y ∷ ys) zero zero d e hj hi = refl
  get_or-write_at_in (x ∷ xs) zero (y ∷ ys) zero (suc j) d e hj hi = absurd (omega arith)
  get_or-write_at_in (x ∷ xs) zero (y ∷ ys) (suc i) zero d e hj hi = absurd (omega arith)
  get_or-write_at_in (x ∷ xs) zero (y ∷ ys) (suc i) (suc j) d e hj hi =
      get_or-write_at_in xs zero ys i j d (omega arith) (omega arith) (omega arith)
  get_or-write_at_in (x ∷ xs) (suc off) ys zero j d e hj hi = absurd (omega arith)
  get_or-write_at_in (x ∷ xs) (suc off) ys (suc i) j d e hj hi =
      get_or-write_at_in xs off ys i j d (omega arith) hj (omega arith)

  pub get_or-write_at_below :
      (xs : List A) (off : ℕ) (ys : List A) (i : ℕ) (d : A)
      → i < off
      → get_or (write_at xs off ys) i d ≡ get_or xs i d
  get_or-write_at_below [] off ys i d h = refl
  get_or-write_at_below (x ∷ xs) zero ys i d h = absurd (omega arith)
  get_or-write_at_below (x ∷ xs) (suc off) ys zero d h = refl
  get_or-write_at_below (x ∷ xs) (suc off) ys (suc i) d h =
      get_or-write_at_below xs off ys i d (omega arith)

  pub get_or-write_at_above :
      (xs : List A) (off : ℕ) (ys : List A) (i : ℕ) (d : A)
      → off + length ys ≤ i
      → get_or (write_at xs off ys) i d ≡ get_or xs i d
  get_or-write_at_above [] off ys i d h = refl
  get_or-write_at_above (x ∷ xs) zero [] i d h = refl
  get_or-write_at_above (x ∷ xs) zero (y ∷ ys) zero d h = absurd (omega arith)
  get_or-write_at_above (x ∷ xs) zero (y ∷ ys) (suc i) d h =
      get_or-write_at_above xs zero ys i d (omega arith)
  get_or-write_at_above (x ∷ xs) (suc off) ys zero d h = refl
  get_or-write_at_above (x ∷ xs) (suc off) ys (suc i) d h =
      get_or-write_at_above xs off ys i d (omega arith)

  pub length-slice : (off n : ℕ) (xs : List A) → off + n ≤ length xs → length (slice off n xs) ≡ n
  length-slice off n xs h = omega (arith, length-take n (drop off xs), length-drop off xs)

  pub get_or-slice :
      (off n i : ℕ) (xs : List A) (d : A)
      → i < n
      → get_or (slice off n xs) i d ≡ get_or xs (off + i) d
  get_or-slice off n i xs d h = get_or-take n i (drop off xs) d h ∙ get_or-drop off i xs d
