-- ===== src/Mapper/Scan.antt =====
-- Each place is announced once, in the message of the round in which it becomes known.
use s3res.Prelude.{
  ℕ, ◌+◌, ◌≤◌, ◌<◌, ltb, ◌==◌, ◌&&◌, ◌||◌, true, false, Option, for_range_inv, if◌then◌else◌, ◌≡◌,
  ◌≢◌, refl, sym, arith, one, Bool-cases, inl, inr,
}
use s3res.Prelude.Int.{ℤ, pos, negsuc}
use s3res.CommTypes.Structs.{RangePoseData}
use s3res.Mapping.{Doubles}
use s3res.Mapping.Grid.{PointD, interval, offset, gridify, off_edge, grid_num}
use s3res.Mapper.Announce.{obstacles, Sized, OnGrid, Announced, announce-Announced, known, Gives}
use s3res.Mapper.{
  Sightings, obs_thres, max_obstacles, count_sighting, add_obstacle, on_some, range_count, Trig,
  sensed, scan_ranges,
}

-- From `s` to `t`, exactly the places that have become known are added to the message.
pub record Tells (s t : Sightings) : Type 0 where
  pub sized : Sized t.send_msg
  pub tells :
      (a c : ℕ)
      → one (known t a c) + obstacles s.send_msg a c ≡ one (known s a c) + obstacles t.send_msg a c
  pub at_most_one : t.send_msg.obs_count ≤ s.send_msg.obs_count + 1
  pub none_less : (a c : ℕ) → s.obstacle_map a c ≤ t.obstacle_map a c
  pub on_grid : OnGrid s.send_msg → OnGrid t.send_msg

Tells-refl : (s : Sightings) → Sized s.send_msg → Tells s s
Tells-refl s sized = record {
  sized = sized;
  tells = λ a c. refl;
  at_most_one = omega arith;
  none_less = λ a c. omega arith;
  on_grid = λ before. before;
}

-- One more sighting of (x, y), as the test on (a, c) sees it.
module _ (seen : ℕ → ℕ → ℕ) (x y a c : ℕ) where
  one_sighting : ℕ
  one_sighting = if a == x && (c == y) then seen x y + 1 else seen a c

  becomes_known :
      ltb obs_thres (seen x y) ≡ false
      → ltb obs_thres (seen x y + 1) ≡ true
      → one (ltb obs_thres one_sighting) ≡ one (x == a && (y == c)) + one (ltb obs_thres (seen a c))
  unfolding one_sighting
  becomes_known e e' = elim (Bool-cases (a == x && (c == y))) [
    | inl same ↦
        let on_x : x ≡ a = ground arith in
        let on_y : y ≡ c = ground arith in
        let was : ltb obs_thres (seen a c) ≡ false = rw (sym on_x, sym on_y) e in
        let hit : (x == a && (y == c)) ≡ true = ground arith in
        rw (same, e', hit, was) (omega arith)
    | inr other ↦
        let miss : (x == a && (y == c)) ≡ false = ground arith in rw (other, miss) (omega arith)
  ]

  stays_unknown :
      ltb obs_thres (seen x y) ≡ false
      → ltb obs_thres (seen x y + 1) ≡ false
      → one (ltb obs_thres one_sighting) ≡ one (ltb obs_thres (seen a c))
  unfolding one_sighting
  stays_unknown e e' = elim (Bool-cases (a == x && (c == y))) [
    | inl same ↦
        let on_x : x ≡ a = ground arith in
        let on_y : y ≡ c = ground arith in
        let was : ltb obs_thres (seen a c) ≡ false = rw (sym on_x, sym on_y) e in
        rw (same, e', was) refl
    | inr other ↦ rw other refl
  ]

  one_sighting-ge : seen a c ≤ one_sighting
  unfolding one_sighting
  one_sighting-ge = elim (Bool-cases (a == x && (c == y))) [
    | inl same ↦
        let on_x : x ≡ a = ground arith in
        let on_y : y ≡ c = ground arith in rw (same, on_x, on_y) (omega arith)
    | inr other ↦ rw other (omega arith)
  ]

count_sighting-Tells :
    (x y : ℕ) (s : Sightings)
    → x < grid_num
    → y < grid_num
    → Sized s.send_msg
    → s.send_msg.obs_count < max_obstacles
    → Gives (Tells s) (count_sighting x y s)
unfolding count_sighting one_sighting
count_sighting-Tells x y s x_in y_in sized room = elim (Bool-cases (known s x y)) [
  | inl e ↦ record { result = s; computes = rw e refl; holds = Tells-refl s sized }
  | inr e ↦ elim (Bool-cases (ltb obs_thres (s.obstacle_map x y + 1))) [
    | inl e' ↦ record {
      result = record counted { send_msg = said.result };
      computes = rw (e, e', said.computes) refl;
      holds = record {
        sized = said.sized;
        tells = λ a c. omega (arith, said.lists a c, becomes_known s.obstacle_map x y a c e e');
        at_most_one = omega (arith, said.one_more);
        none_less = one_sighting-ge s.obstacle_map x y;
        on_grid = said.on_grid x_in y_in;
      };
    }
    | inr e' ↦ record {
      result = counted;
      computes = rw (e, e') refl;
      holds = record {
        sized = sized;
        tells = λ a c. omega (arith, stays_unknown s.obstacle_map x y a c e e');
        at_most_one = omega arith;
        none_less = one_sighting-ge s.obstacle_map x y;
        on_grid = λ before. before;
      };
    }
  ]
]
  where
    counted : Sightings
    counted = record s {
      obstacle_map =
          λ a b. if a == x && (b == y) then s.obstacle_map x y + 1 else s.obstacle_map a b;
    }

    said : Announced x y s.send_msg
    said = announce-Announced x y s.send_msg sized room

-- A coordinate that `gridify` may give.
abbrev OffEdge : ℤ → Type 0
OffEdge (pos n) = n ≢ grid_num
OffEdge (negsuc n) = Unit

OffEdge-off_edge : (z : ℤ) → OffEdge (off_edge z)
OffEdge-off_edge (negsuc n) = tt
OffEdge-off_edge (pos n) = elim (Bool-cases (n == grid_num)) [
  | inl e ↦
      let at_edge : n ≡ grid_num = ground arith in rw (e, at_edge) (λ (f : 47 ≡ 48). omega arith)
  | inr e ↦ rw e (λ (f : n ≡ grid_num). ground arith)
]

-- A sighting tells what has become known, wherever `gridify` puts it.
add_obstacle-Tells :
    (x y : ℤ) (s : Sightings)
    → OffEdge x
    → OffEdge y
    → Sized s.send_msg
    → s.send_msg.obs_count < max_obstacles
    → Gives (Tells s) (add_obstacle (record { x = x; y = y }) s)
unfolding add_obstacle
add_obstacle-Tells (negsuc x) y s off_x off_y sized room = record {
  result = s;
  computes = refl;
  holds = Tells-refl s sized;
}
add_obstacle-Tells (pos x) (negsuc y) s off_x off_y sized room = record {
  result = s;
  computes = refl;
  holds = Tells-refl s sized;
}
add_obstacle-Tells (pos x) (pos y) s off_x off_y sized room =
    elim (Bool-cases (ltb grid_num x || ltb grid_num y)) [
      | inl e ↦ record { result = s; computes = rw e refl; holds = Tells-refl s sized }
      | inr e ↦
          let x_in : x < grid_num = ground arith in
          let y_in : y < grid_num = ground arith in
          let counted = count_sighting-Tells x y s x_in y_in sized room in
          let inside : (ltb x grid_num && ltb y grid_num) ≡ true = ground arith in
          record {
            result = counted.result;
            computes = rw (e, inside) counted.computes;
            holds = counted.holds;
          }
    ]

-- What the first `k` ranges of a frame have told.
pub record Told (s : Sightings) (k : ℕ) (t : Sightings) : Type 0 where
  pub sized : Sized t.send_msg
  pub tells : (a c : ℕ) → one (known t a c) ≡ one (known s a c) + obstacles t.send_msg a c
  pub at_most : t.send_msg.obs_count ≤ k
  pub none_less : (a c : ℕ) → s.obstacle_map a c ≤ t.obstacle_map a c
  pub on_grid : OnGrid t.send_msg

module _ {Score : Type 0} (d : Doubles Score) (trig : Trig Score) where
  gridify-OffEdge : (p : PointD Score) → OffEdge (gridify d p).x × OffEdge (gridify d p).y
  unfolding gridify
  gridify-OffEdge p = (
    OffEdge-off_edge (d.truncate (d.divide (d.plus p.x (d.of_nat offset)) (interval d))),
    OffEdge-off_edge (d.truncate (d.divide (d.plus p.y (d.of_nat offset)) (interval d))),
  )

  sensed-OffEdge :
      (frame : RangePoseData Score) (i : ℕ)
      → OffEdge (sensed d trig frame i).x × OffEdge (sensed d trig frame i).y
  unfolding sensed
  sensed-OffEdge frame i = gridify-OffEdge _

  scan_step :
      (frame : RangePoseData Score) (s : Sightings) (k : ℕ) (st : Option Sightings)
      → k < range_count
      → Gives (Told s k) st
      → Gives (Told s (k + 1)) (on_some (add_obstacle (sensed d trig frame k)) st)
  scan_step frame s k st lt h =
      let next =
        let (off_x, off_y) = sensed-OffEdge frame k in
        add_obstacle-Tells (sensed d trig frame k).x (sensed d trig frame k).y h.result off_x off_y
          h.holds.sized (omega (arith, h.holds.at_most)) in
      record {
        result = next.result;
        computes = rw h.computes next.computes;
        holds = record {
          sized = next.holds.sized;
          tells = λ a c. omega (arith, next.holds.tells a c, h.holds.tells a c);
          at_most = omega (arith, next.holds.at_most_one, h.holds.at_most);
          none_less = λ a c. omega (arith, next.holds.none_less a c, h.holds.none_less a c);
          on_grid = next.holds.on_grid h.holds.on_grid;
        };
      }

  -- Whatever the sensors say, the scan accesses its arrays within their bounds, and the message that it
  -- makes lists each place that has become known as an obstacle once, and no other place; no count falls.
  pub scan_ranges-Told :
      (frame : RangePoseData Score) (s : Sightings)
      → Sized s.send_msg
      → Gives (Told s range_count) (scan_ranges d trig frame s)
  unfolding scan_ranges
  scan_ranges-Told frame s sized =
      for_range_inv (λ k st. Gives (Told s k) st)
        (λ i st. on_some (add_obstacle (sensed d trig frame i)) st) range_count 0 range_count _ refl
        (λ k st _ lt h. scan_step frame s k st lt h)
        (record {
          result = record s { send_msg = record s.send_msg { obs_count = 0 } };
          computes = refl;
          holds = record {
            sized = record { size_x = sized.size_x; size_y = sized.size_y };
            tells = λ a c. omega arith;
            at_most = omega arith;
            none_less = λ a c. omega arith;
            on_grid = λ i lt. absurd (omega arith);
          };
        })
