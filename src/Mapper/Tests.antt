-- ===== src/Mapper/Tests.antt =====
-- The mapper on a frame, with natural numbers for the doubles.
use s3res.Prelude.{
  ℕ, ◌+◌, ◌-◌, ◌*◌, ◌/◌, ◌<◌, ltb, true, false, some, [], ◌∷◌, replicate, length-replicate, ◌≡◌,
  refl, arith, square-zero, for_range,
}
use s3res.Prelude.Int.{pos}
use s3res.CommTypes.MapUpdate.{MapUpdate, rounds}
use s3res.CommTypes.Structs.{RangePoseData}
use s3res.Mapping.{Doubles}
use s3res.Mapping.Grid.{gridify, grid_num}
use s3res.AStar.{ObstacleMap}
use s3res.AStar.Loop.{mark_obstacles}
use s3res.Mapper.{
  Sightings, Mapper, Trig, scan_ranges, update_map, max_obstacles, range_count, sensed,
}
use s3res.Mapper.Announce.{Sized, Gives, known}
use s3res.Mapper.Scan.{Told, scan_ranges-Told}
use s3res.Mapper.Resend.{known_places}
use s3res.Mapper.Restart.{mark_obstacles-update_map}

-- Sixths, so that one place of the grid is two of them.
abbrev sixths : Doubles ℕ
sixths = record {
  origin = 0;
  plus = λ a b. a + b;
  lt = ltb;
  sqrt = λ n. n;
  minus = λ a b. a - b;
  times = λ a b. a * b / 6;
  divide = λ a b. a * 6 / b;
  of_nat = λ n. n * 6;
  truncate = λ a. pos (a / 6);
}

-- All ranges along the first axis.
abbrev along : Trig ℕ
along = record { pi = 18; cos = λ a. 6; sin = λ a. 0 }

abbrev frame : RangePoseData ℕ
frame = record { seq_count = pos 1; ranges = replicate 16 12; pose = 0 ∷ 0 ∷ 0 ∷ [] }

abbrev no_message : MapUpdate
no_message = record {
  pose_x = 0;
  pose_y = 0;
  obs_count = 0;
  obs_x = replicate max_obstacles 0;
  obs_y = replicate max_obstacles 0;
}

abbrev nothing_seen : Sightings
nothing_seen = record { obstacle_map = λ x y. 0; send_msg = no_message }

abbrev asked : Mapper
asked = record {
  sightings = nothing_seen;
  resending_all = true;
  insert_sdc = false;
  insert_cfe = false;
  seq_count = pos 0;
}

no_message-Sized : Sized no_message
no_message-Sized = record {
  size_x = length-replicate {A = ℕ} max_obstacles 0;
  size_y = length-replicate {A = ℕ} max_obstacles 0;
}

-- The place that the frame senses.
senses : sensed sixths along frame 3 ≡ record { x = pos 30; y = pos 24 }
unfolding sensed gridify for_range
senses = refl

scan_ranges-Told_example :
    Gives (Told nothing_seen range_count) (scan_ranges sixths along frame nothing_seen)
scan_ranges-Told_example = scan_ranges-Told sixths along frame nothing_seen no_message-Sized

nothing_known : known_places nothing_seen ≡ 0
nothing_known = square-zero grid_num (λ a c. 0) (λ a c. refl)

mark_obstacles-update_map_example :
    (state : Mapper) × (msg : MapUpdate) × (map : ObstacleMap) × (update_map sixths along frame
        asked
      ≡ some (state, msg))
    × (mark_obstacles msg (rounds msg.obs_count) 0 (λ _ _. false) ≡ some map)
    × ((a c : ℕ) → a < grid_num → c < grid_num → map a c ≡ known state.sightings a c)
mark_obstacles-update_map_example =
    mark_obstacles-update_map sixths along frame asked no_message-Sized refl
      (omega (arith, nothing_known))
