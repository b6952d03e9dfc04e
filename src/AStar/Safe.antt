-- ===== src/AStar/Safe.antt =====
-- The controller's loop keeps within the map, and each of its rounds ends.
use s3res.Prelude.{ℕ, ◌≤◌, ◌<◌, true, Option, none, some, get_or, ◌≡◌}
use s3res.Prelude.Int.{ℤ, pos, ltz}
use s3res.CommTypes.MapUpdate.{MapUpdate, rounds}
use s3res.Mapping.{Doubles, Node, LList}
use s3res.Mapping.Count.{Tidy, Real}
use s3res.AStar.{grid_num}
use s3res.AStar.Neighbors.{Interior}
use s3res.AStar.Round.{Walled}
use s3res.AStar.Loop.{Planner, Round, Fate, lives, wild_access, null_access, no_end}

-- A list that is not NULL, with no cell behind an empty one.
abbrev pub Kept : {Score : Type 0} → LList Score → Type 0
Kept l = Tidy l × Real l

-- All obstacles of the message from `index` on are places of the grid.
abbrev pub OnGrid : MapUpdate → ℕ → ℕ → Type 0
OnGrid msg index last =
    (i : ℕ)
    → index ≤ i
    → i < last
    → (get_or msg.obs_x i 0 < grid_num) × (get_or msg.obs_y i 0 < grid_num)

module _ {Score : Type 0} (d : Doubles Score) where
  -- What holds between the rounds.
  pub record Fine (p : Planner Score) : Type 0 where
    pub walled : Walled p.obstacle_map
    pub path : Kept p.way.goal_path

  -- The controller lives on, or its search follows a null pointer; it does not leave the map, and its
  -- search ends.
  abbrev pub Safe : Fate Score → Type 0
  Safe (lives p calls) = Fine p
  Safe wild_access = ⊥
  Safe null_access = Unit
  Safe no_end = ⊥

  -- A message that the mapper sends: the robot is not at the border, the obstacles are on the grid.
  pub record Sane (msg : MapUpdate) : Type 0 where
    pub inside : Interior msg.pose_x msg.pose_y
    pub on_grid : OnGrid msg 0 (rounds msg.obs_count)

  -- What the receiver of the round's update is left with is sane, if something is received.
  abbrev pub SaneUpdate : ℤ × MapUpdate → Type 0
  SaneUpdate (read_ret, msg) = ltz (pos 0) read_ret ≡ true → Sane msg

  -- What `pop` answers on a list that is not NULL.
  abbrev Popped : Option (Node Score × LList Score) → Type 0
  Popped none = ⊥
  Popped (some (n, rest)) = Kept rest
