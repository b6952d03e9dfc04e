-- ===== src/AStar/Neighbors.antt =====
-- The neighbors of a place (`genNeighbors`) are the places to which a step leads.
use s3res.Prelude.{
  ℕ, zero, suc, ◌+◌, ◌≤◌, ◌<◌, ltb, ◌==◌, ◌&&◌, ◌||◌, not, Bool, true, false, Option, some,
  for_range, for_range_inv, if◌then◌else◌, ◌≡◌, refl, sym, arith, one, passed, one-passed,
  Bool-cases, inl, inr, ◌⊎◌,
}
use s3res.Mapping.{Doubles, no_node, LList, new_list, new_node}
use s3res.Mapping.Count.{count, Tidy, Real, add_node-Added}
use s3res.AStar.{ObstacleMap, grid_num}
use s3res.AStar.Search.{obstacle_at, add_neighbor, offer_neighbor, gen_neighbors, on_list}

abbrev pub near : ℕ → ℕ → Bool
near a b = ltb a (b + 2) && ltb b (a + 2)

-- One step leads from (x, y) to (a, b): the places touch, the second has no obstacle, and a step
-- across a corner has at least one of the two places beside it free.
abbrev pub may_step : ObstacleMap → ℕ → ℕ → ℕ → ℕ → Bool
may_step map x y a b =
    near x a
    && (near y b
        && (not (x == a && (y == b))
            && (not (map a b) && (x == a || (y == b || (not (map a y) || not (map x b)))))))

-- All the neighbors of the place are in the grid.
abbrev pub Interior : ℕ → ℕ → Type 0
Interior x y = (1 ≤ x) × (x + 1 < grid_num) × (1 ≤ y) × (y + 1 < grid_num)

obstacle_at-inside :
    (map : ObstacleMap) (x y : ℕ)
    → x < grid_num
    → y < grid_num
    → obstacle_at map x y ≡ some (map x y)
unfolding obstacle_at
obstacle_at-inside map x y h k = ground arith

module _ {Score : Type 0} (d : Doubles Score) (map : ObstacleMap) where
  -- Two places beside each other, when both differences are at most one.
  may_step-offset :
      (x y i j : ℕ)
      → i < 3
      → j < 3
      → may_step map (suc x) (suc y) (x + i) (y + j) ≡ (
          not (i == 1 && (j == 1))
          && (not (map (x + i) (y + j))
              && (i == 1 || (j == 1 || (not (map (x + i) (suc y)) || not (map (suc x) (y + j)))))))
  may_step-offset x y i j h k =
      rw (near_offset x i h, near_offset y j k, same_offset x i, same_offset y j) refl
    where
      near_offset : (x i : ℕ) → i < 3 → near (suc x) (x + i) ≡ true
      near_offset x i h = ground arith

      same_offset : (x i : ℕ) → (suc x == x + i) ≡ (i == 1)
      same_offset x i = ground arith

  offer_neighbor-may_step :
      (x y i j : ℕ) (l : LList Score)
      → Interior (suc x) (suc y)
      → i < 3
      → j < 3
      → offer_neighbor d map (suc x) (suc y) i j l ≡ (
          if may_step map (suc x) (suc y) (x + i) (y + j)
          then add_neighbor d map (x + i) (y + j) l
          else some l)
  unfolding offer_neighbor
  offer_neighbor-may_step x y i j l h i_lt j_lt = rw (may_step-offset x y i j i_lt j_lt) (
      ground (
        arith,
        obstacle_at-inside map (x + i) (y + j) (omega arith) (omega arith),
        obstacle_at-inside map (x + i) (suc y) (omega arith) (omega arith),
        obstacle_at-inside map (suc x) (y + j) (omega arith) (omega arith),
      ))

  may_step-near :
      (x y a c : ℕ)
      → may_step map (suc x) (suc y) a c ≡ true
      → (x ≤ a) × (a < x + 3) × (y ≤ c) × (c < y + 3)
  may_step-near x y a c h = ground arith

module _ {Score : Type 0} (d : Doubles Score) (map : ObstacleMap) (x y : ℕ) where
  -- the places that the loops have passed before the round (i, j)
  abbrev passed_by : ℕ → ℕ → ℕ → ℕ → Bool
  passed_by i j = passed (x + i) (y + j)

  record Listed (seen : ℕ → ℕ → Bool) (st : Option (LList Score)) : Type 0 where
    list : LList Score
    computes : st ≡ some list
    real : Real list
    tidy : Tidy list
    counts : (a c : ℕ) → count list a c ≡ one (seen a c && may_step map (suc x) (suc y) a c)

  Listed-offer_neighbor :
      (i j : ℕ) (st : Option (LList Score))
      → Interior (suc x) (suc y)
      → i < 3
      → j < 3
      → Listed (passed_by i j) st
      → Listed (passed_by i (j + 1)) (on_list d map (offer_neighbor d map (suc x) (suc y) i j) st)
  unfolding new_node
  Listed-offer_neighbor i j st inside i_lt j_lt h =
      elim (Bool-cases (may_step map (suc x) (suc y) (x + i) (y + j))) [
        | inl e ↦
            let added =
              add_node-Added d (λ _. Unit) h.list (x + i) (y + j) d.origin no_node d.origin h.real
                h.tidy in
            record {
              list = added.result;
              computes =
                  rw (h.computes, offer_neighbor-may_step d map x y i j h.list inside i_lt j_lt, e)
                    added.computes;
              real = added.real;
              tidy = added.tidy;
              counts = λ a c. omega (
                arith,
                added.counts a c,
                h.counts a c,
                (let t : one (
                          may_step map (suc x) (suc y) (x + i) (y + j)
                          && (x + i == a && (y + j == c)))
                        ≡ one (x + i == a && (y + j == c)) =
                      rw e refl in
                    t),
                one-passed (may_step map (suc x) (suc y)) (x + i) (y + j) (y + (j + 1)) a c
                    (omega arith),
              );
            }
        | inr e ↦ record {
          list = h.list;
          computes =
              rw (h.computes, offer_neighbor-may_step d map x y i j h.list inside i_lt j_lt, e)
                refl;
          real = h.real;
          tidy = h.tidy;
          counts = λ a c. omega (
            arith,
            h.counts a c,
            (let t : one
                      (may_step map (suc x) (suc y) (x + i) (y + j) && (x + i == a && (y + j == c)))
                    ≡ 0 =
                  rw e refl in
                t),
            one-passed (may_step map (suc x) (suc y)) (x + i) (y + j) (y + (j + 1)) a c
                (omega arith),
          );
        }
      ]

  -- The tests on what is passed may differ where no step leads.
  Listed-agree :
      (p q : ℕ → ℕ → Bool) (st : Option (LList Score))
      → ((a c : ℕ) → may_step map (suc x) (suc y) a c ≡ true → p a c ≡ q a c)
      → Listed p st
      → Listed q st
  Listed-agree p q st same h = record {
    list = h.list;
    computes = h.computes;
    real = h.real;
    tidy = h.tidy;
    counts = λ a c. elim (Bool-cases (may_step map (suc x) (suc y) a c)) [
      | inl e ↦ rw (sym (same a c e)) (h.counts a c)
      | inr e ↦ omega (arith, h.counts a c, nowhere (p a c) e, nowhere (q a c) e)
    ];
  }
    where
      nowhere : {s : Bool} (b : Bool) → s ≡ false → one (b && s) ≡ 0
      nowhere b e = ground arith

  Listed-row :
      (i : ℕ) (st : Option (LList Score))
      → Interior (suc x) (suc y)
      → i < 3
      → Listed (passed_by i 0) st
      → Listed (passed_by (i + 1) 0) (
          for_range 3 0
            (λ j list. on_list d map (offer_neighbor d map (suc x) (suc y) i j) list)
            st)
  Listed-row i st inside i_lt h =
      Listed-agree (passed_by i 3) (passed_by (i + 1) 0) _
        (λ a c e. let n = may_step-near d map x y a c e in row_end a c n.2 n.3)
        (for_range_inv (λ j st. Listed (passed_by i j) st)
          (λ j list. on_list d map (offer_neighbor d map (suc x) (suc y) i j) list) 3 0 3 st refl
          (λ j st _ j_lt g. Listed-offer_neighbor i j st inside i_lt j_lt g) h)
    where
      row_end : (a c : ℕ) → y ≤ c → c < y + 3 → passed_by i 3 a c ≡ passed_by (i + 1) 0 a c
      row_end a c lo hi = ground arith

  gen_neighbors-Listed :
      Interior (suc x) (suc y) → Listed (λ a c. true) (gen_neighbors d map (suc x) (suc y))
  unfolding gen_neighbors new_list
  gen_neighbors-Listed inside =
      Listed-agree (passed_by 3 0) (λ a c. true) _
        (λ a c e. let n = may_step-near d map x y a c e in ground (arith, n))
        (for_range_inv (λ i st. Listed (passed_by i 0) st) _ 3 0 3 (some (new_list d)) refl
          (λ i st _ i_lt g. Listed-row i st inside i_lt g)
          (record {
            list = new_list d;
            computes = refl;
            real = tt;
            tidy = tt;
            counts = λ a c. none_passed a c (Bool-cases (may_step map (suc x) (suc y) a c));
          }))
    where
      none_passed :
          (a c : ℕ)
          → ((may_step map (suc x) (suc y) a c ≡ true) ⊎ (may_step map (suc x) (suc y) a c ≡ false))
          → 0 ≡ one (passed_by 0 0 a c && may_step map (suc x) (suc y) a c)
      none_passed a c (inl e) =
          let n = may_step-near d map x y a c e in
          let before : passed_by 0 0 a c ≡ false = ground (arith, n) in rw before refl
      none_passed a c (inr e) = let b = Bool-cases (passed_by 0 0 a c) in rw e (ground arith)

-- The list of the neighbors: the places that `may_step` allows, once each.
pub record IsNeighborList {Score : Type 0} (d : Doubles Score) (map : ObstacleMap) (x y : ℕ)
    : Type 0 where
  pub list : LList Score
  pub computes : gen_neighbors d map x y ≡ some list
  pub tidy : Tidy list
  pub counts : (a c : ℕ) → count list a c ≡ one (may_step map x y a c)

-- From a place whose neighbors are all in the grid, `genNeighbors` reads within the map and gives a list
-- that holds each place to which one step leads once, and no other place. A step leads to a free place
-- that touches, across a corner only if one of the two places beside the corner is free.
pub gen_neighbors-IsNeighborList :
    {Score : Type 0} (d : Doubles Score) (map : ObstacleMap) (x y : ℕ)
    → Interior x y
    → IsNeighborList d map x y
gen_neighbors-IsNeighborList d map zero y inside = absurd (omega arith)
gen_neighbors-IsNeighborList d map (suc x) zero inside = absurd (omega arith)
gen_neighbors-IsNeighborList d map (suc x) (suc y) inside =
    let h = gen_neighbors-Listed d map x y inside in
    record { list = h.list; computes = h.computes; tidy = h.tidy; counts = h.counts }
