-- ===== src/Prelude/Blocks.antt =====
-- Two blocks laid over an array: one up to its end, and one from its start, as the copies of a
-- ring buffer do.
use Prim.Native.Nat.{ℕ, ◌-◌, ◌<◌, ◌≤◌}
use mathlib.Core.Path.{◌≡◌, ◌∙◌}
use mathlib.Core.List.{List}
use native.Mathlib.Omega.{arith}
use s3res.Prelude.Lists.{length, get_or}
use s3res.Prelude.Slices.{
  write_at, length-write_at, get_or-write_at_in, get_or-write_at_below, get_or-write_at_above,
}

module _ {ℓ} {A : Type ℓ} where
  abbrev pub write_round : List A → ℕ → List A → List A → List A
  write_round xs off ys zs = write_at (write_at xs off ys) 0 zs

  pub length-write_round :
      (xs : List A) (off : ℕ) (ys zs : List A) → length (write_round xs off ys zs) ≡ length xs
  length-write_round xs off ys zs =
      length-write_at (write_at xs off ys) 0 zs ∙ length-write_at xs off ys

module _ {ℓ} {A : Type ℓ} (xs : List A) (off : ℕ) (ys zs : List A) (q : ℕ) (d : A) where
  pub get_or-write_round_start :
      q < length zs → q < length xs → get_or (write_round xs off ys zs) q d ≡ get_or zs q d
  get_or-write_round_start h k =
      get_or-write_at_in (write_at xs off ys) 0 zs q q d (omega arith) h
        (omega (arith, length-write_at xs off ys))

  pub get_or-write_round_middle :
      length zs ≤ q → q < off → get_or (write_round xs off ys zs) q d ≡ get_or xs q d
  get_or-write_round_middle h k =
      get_or-write_at_above (write_at xs off ys) 0 zs q d (omega arith)
      ∙ get_or-write_at_below xs off ys q d k

  pub get_or-write_round_end :
      length zs ≤ off
      → off ≤ q
      → q - off < length ys
      → q < length xs
      → get_or (write_round xs off ys zs) q d ≡ get_or ys (q - off) d
  get_or-write_round_end h k m n =
      get_or-write_at_above (write_at xs off ys) 0 zs q d (omega arith)
      ∙ get_or-write_at_in xs off ys q (q - off) d (omega arith) m n
