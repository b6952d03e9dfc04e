-- ===== src/Mapping/Grid.antt =====
-- controllers/mapping.c: places of the grid and points of the plane (`gridify`, `degridify`).
use s3res.Prelude.{ℕ, ◌-◌, ◌==◌, if◌then◌else◌}
use s3res.Prelude.Int.{ℤ, pos, negsuc}
use s3res.Mapping.{Doubles}

-- `struct point_d`
pub record PointD (Score : Type 0) : Type 0 where
  pub x : Score
  pub y : Score

-- `struct point_i`, as `gridify` computes it
pub record PointI : Type 0 where
  pub x : ℤ
  pub y : ℤ

-- GRID_NUM, MAP_SIZE, OFFSET_X and OFFSET_Y
abbrev pub grid_num : ℕ
grid_num = 48

abbrev pub map_size : ℕ
map_size = 16

abbrev pub offset : ℕ
offset = 8

-- The edge of the map counts to the last place.
abbrev pub off_edge : ℤ → ℤ
off_edge (pos n) = if n == grid_num then pos (n - 1) else pos n
off_edge (negsuc n) = negsuc n

module _ {Score : Type 0} (d : Doubles Score) where
  abbrev pub interval : Score
  interval = d.divide (d.of_nat map_size) (d.of_nat grid_num)

  unfoldable pub gridify : PointD Score → PointI
  gridify p = record {
    x = off_edge (d.truncate (d.divide (d.plus p.x (d.of_nat offset)) interval));
    y = off_edge (d.truncate (d.divide (d.plus p.y (d.of_nat offset)) interval));
  }

  -- `x * interval + (interval / 2.0) - OFFSET_X`
  abbrev pub middle : ℕ → Score
  middle x =
      d.minus (d.plus (d.times (d.of_nat x) interval) (d.divide interval (d.of_nat 2)))
        (d.of_nat offset)

  unfoldable pub degridify : ℕ → ℕ → PointD Score
  degridify x y = record { x = middle x; y = middle y }
