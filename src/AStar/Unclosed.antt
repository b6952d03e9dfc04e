-- ===== src/AStar/Unclosed.antt =====
-- The places of the grid that are not in the closed set: each round of the search closes one.
use s3res.Prelude.{
  ℕ, ◌*◌, ◌≤◌, ◌<◌, ◌==◌, ◌≡◌, arith, one, one-bound, total, total-le, total-lt, total-bound,
}
use s3res.Mapping.{LList}
use s3res.Mapping.Count.{count}
use s3res.AStar.{grid_num}

module _ {Score : Type 0} where
  pub unclosed : LList Score → ℕ
  unclosed closed_set = total grid_num (λ i. total grid_num (λ j. one (count closed_set i j == 0)))

  pub unclosed-bound : (l : LList Score) → unclosed l ≤ grid_num * grid_num
  unfolding unclosed
  unclosed-bound l =
      total-bound grid_num grid_num (λ i. total grid_num (λ j. one (count l i j == 0)))
        (λ i. total-bound grid_num 1 (λ j. one (count l i j == 0)) (λ j. one-bound _))

  -- A place of the grid that was not closed is.
  pub unclosed-lt :
      (before after : LList Score) (x y : ℕ)
      → ((a c : ℕ) → count before a c ≤ count after a c)
      → x < grid_num
      → y < grid_num
      → count before x y ≡ 0
      → 1 ≤ count after x y
      → unclosed after < unclosed before
  unfolding unclosed
  unclosed-lt before after x y grows x_lt y_lt was is =
      total-lt grid_num _ _ x (λ i. total-le grid_num _ _ (λ j. falls i j)) x_lt
        (total-lt grid_num _ _ y (λ j. falls x j) y_lt (ground arith))
    where
      falls : (i j : ℕ) → one (count after i j == 0) ≤ one (count before i j == 0)
      falls i j = ground (arith, grows i j)
