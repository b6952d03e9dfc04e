-- ===== src/AStar.antt =====
-- controllers/a_star.c: the planner. It finds a path to the goal, and sends it point by point.
use s3res.Prelude.{ℕ, Bool}
pub use s3res.Mapping.Grid.{grid_num}
pub mod Search
pub mod Neighbors
pub mod Unclosed
pub mod Visit
pub mod Round
pub mod Decides
pub mod Path
pub mod Waypoints
pub mod Loop
pub mod Safe
mod Tests

-- `struct point_i`, of a place within the grid
pub record Point : Type 0 where
  pub x : ℕ
  pub y : ℕ

-- `obstacle_map`, within the grid
abbrev pub ObstacleMap : Type 0
ObstacleMap = ℕ → ℕ → Bool
