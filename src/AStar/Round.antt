-- ===== src/AStar/Round.antt =====
-- What one round of the search keeps, and what holds where it ends the search.
use s3res.Prelude.{
  ℕ, ◌+◌, ◌≤◌, ◌<◌, ◌==◌, ◌&&◌, true, false, Option, some, ◌≡◌, refl, subst, arith, one, Bool-cases,
  inl, inr, OnSome, Option-cases,
}
use s3res.Mapping.{
  Doubles, Node, no_node, node, LList, no_list, cell, node_equals, new_node, or_new, each_popped,
}
use s3res.Mapping.Count.{
  count, stands, Tidy, Real, All, Added, add_node-Added, count-or_new, Tidy-or_new, Real-or_new,
  All-or_new,
}
use s3res.AStar.{Point, ObstacleMap, grid_num}
use s3res.AStar.Search.{
  Outcome, solved, unsolved, wild_read, null_list, out_of_fuel, examine, est_distance_g,
  visit_neighbor,
}
use s3res.AStar.Neighbors.{may_step, Interior, IsNeighborList, gen_neighbors-IsNeighborList}
use s3res.AStar.Unclosed.{unclosed, unclosed-lt}
use s3res.AStar.Visit.{Trail, Visited, each_popped-Visited}

-- No place at the border of the grid is free.
abbrev pub Walled : ObstacleMap → Type 0
Walled map = (x y : ℕ) → x < grid_num → y < grid_num → map x y ≡ false → Interior x y

-- The places that some walk of steps leads to.
pub data Reach (map : ObstacleMap) (pose : Point) : ℕ → ℕ → Type 0 where
  here : Reach map pose pose.x pose.y
  step : {x y a c : ℕ} → Reach map pose x y → may_step map x y a c ≡ true → Reach map pose a c

Interior-may_step :
    (map : ObstacleMap) (x y a c : ℕ)
    → Walled map
    → Interior x y
    → may_step map x y a c ≡ true
    → Interior a c
Interior-may_step map x y a c walled inside e =
    walled a c (ground arith) (ground arith) (ground arith)

abbrev OnPlace : {Score : Type 0} → (ℕ → ℕ → Type 0) → Node Score → Type 0
OnPlace P no_node = Unit
OnPlace P (node x y _ _) = P x y

Interior-Trail :
    {Score : Type 0} (map : ObstacleMap) (pose : Point) (n : Node Score)
    → Walled map
    → Interior pose.x pose.y
    → Trail map pose n
    → OnPlace Interior n
Interior-Trail map pose no_node walled inside t = tt
Interior-Trail map pose (node x y _ no_node) walled inside t = rw (t.0, t.1) inside
Interior-Trail map pose (node x y _ (node a c g b)) walled inside t =
    Interior-may_step map a c x y walled (Interior-Trail map pose (node a c g b) walled inside t.1)
      t.0

module _ {Score : Type 0} (d : Doubles Score) (map : ObstacleMap) (pose goal : Point) where
  pub record Inv (open_set closed_set : LList Score) : Type 0 where
    pub open_real : Real open_set
    pub open_tidy : Tidy open_set
    pub closed_real : Real closed_set
    pub closed_tidy : Tidy closed_set
    pub trails : All (Trail map pose) open_set
    pub apart : (x y : ℕ) → count open_set x y + count closed_set x y ≤ 1
    pub start : 1 ≤ count open_set pose.x pose.y + count closed_set pose.x pose.y
    pub closed_steps :
        (x y a c : ℕ)
        → 1 ≤ count closed_set x y
        → may_step map x y a c ≡ true
        → 1 ≤ count open_set a c + count closed_set a c
    pub goal_open : count closed_set goal.x goal.y ≡ 0

  -- A path to the goal, or none; the search reads within the map and ends. It may follow a null pointer.
  abbrev pub Right : Outcome Score → Type 0
  Right (solved n) = Trail map pose n × (stands n goal.x goal.y ≡ true)
  Right unsolved = ¬ Reach map pose goal.x goal.y
  Right null_list = Unit
  Right wild_read = ⊥
  Right out_of_fuel = ⊥

  -- With an empty open set, the closed set holds all that can be reached.
  reached-closed :
      (s : Score) (closed_set : LList Score) (x y : ℕ)
      → Inv (cell no_node s no_list) closed_set
      → Reach map pose x y
      → 1 ≤ count closed_set x y
  reached-closed s closed_set x y h here = omega (arith, h.start)
  reached-closed s closed_set a c h (step {x} {y} r e) =
      omega (arith, h.closed_steps x y a c (reached-closed s closed_set x y h r) e)

  -- The node has moved from the open set to the closed set, and its neighbors are visited.
  Inv-Visited :
      (x y : ℕ) (g : Score) (b : Node Score) (s : Score)
      (tail closed_set closed' open' : LList Score)
      → Inv (cell (node x y g b) s tail) closed_set
      → Real closed'
      → Tidy closed'
      → ((a c : ℕ) → count closed' a c ≡ count closed_set a c + one (stands (node x y g b) a c))
      → stands (node x y g b) goal.x goal.y ≡ false
      → Visited d map pose goal closed' x y g b (or_new d tail) no_list open'
      → Inv open' closed'
  Inv-Visited x y g b s tail closed_set closed' open' h real tidy moved not_goal v = record {
    open_real = v.real;
    open_tidy = v.tidy;
    closed_real = real;
    closed_tidy = tidy;
    trails = v.trails;
    apart = v.apart;
    start = kept pose.x pose.y h.start;
    closed_steps = λ i j a c there e. elim (Bool-cases (stands (node x y g b) i j)) [
      | inl same ↦
          let on_x : x ≡ i = ground arith in
          let on_y : y ≡ j = ground arith in
          let from_here : may_step map x y a c ≡ true = rw (on_x, on_y) e in
          omega (arith, v.complete a c from_here)
      | inr other ↦
          let never : one (stands (node x y g b) i j) ≡ 0 = rw other refl in
          kept a c (h.closed_steps i j a c (omega (arith, moved i j)) e)
    ];
    goal_open =
        let never : one (stands (node x y g b) goal.x goal.y) ≡ 0 = rw not_goal refl in
        omega (arith, moved goal.x goal.y, h.goal_open);
  }
    where
      kept :
          (a c : ℕ)
          → 1 ≤ count (cell (node x y g b) s tail) a c + count closed_set a c
          → 1 ≤ count open' a c + count closed' a c
      kept a c there = omega (arith, moved a c, v.grows a c, count-or_new d tail a c)

  -- The loop over the neighbors, once the node is in the closed set.
  neighbors-Visited :
      (x y : ℕ) (g : Score) (b : Node Score) (s : Score) (tail closed_set : LList Score) (v : Score)
      → Inv (cell (node x y g b) s tail) closed_set
      → (closed : Added d (λ _. Unit) closed_set (node x y g b) v)
      → (neighbors : IsNeighborList d map x y)
      → OnSome (Visited d map pose goal closed.result x y g b (or_new d tail) no_list) (
          each_popped neighbors.list
            (visit_neighbor d map pose goal closed.result x y g b)
            (some (or_new d tail)))
  neighbors-Visited x y g b s tail closed_set v h closed neighbors =
      each_popped-Visited d map pose goal closed.result x y g b (or_new d tail) neighbors.list
        h.trails.0 closed.tidy neighbors.tidy
        (record {
          real = Real-or_new d tail;
          tidy = Tidy-or_new d tail h.open_tidy;
          trails = All-or_new d (Trail map pose) tail h.trails.1;
          apart = λ a c. omega (arith, h.apart a c, closed.counts a c, count-or_new d tail a c);
          steps = λ a c. omega (arith, neighbors.counts a c);
          grows = λ a c. omega arith;
          complete = λ a c e.
              let one_more : one (may_step map x y a c) ≡ 1 = rw e refl in
              omega (arith, neighbors.counts a c);
        })

  -- One round: what holds of the loop from the sets that the round leaves holds of the loop.
  pub examine-Right :
      (current : Node Score) (s : Score) (tail closed_set : LList Score)
      (next : LList Score → LList Score → Outcome Score)
      → Walled map
      → Interior pose.x pose.y
      → Inv (cell current s tail) closed_set
      → ((open' closed' : LList Score)
          → Inv open' closed'
          → unclosed closed' < unclosed closed_set
          → Right (next open' closed'))
      → Right (examine d map pose goal current (or_new d tail) closed_set next)
  unfolding examine node_equals new_node
  examine-Right no_node s (cell _ _ _) closed_set next walled inside h loop = elim h.open_tidy [ ]
  examine-Right no_node s no_list closed_set next walled inside h loop =
      λ r. let there = reached-closed s closed_set goal.x goal.y h r in omega (arith, h.goal_open)
  examine-Right (node x y g b) s tail closed_set next walled inside h loop =
      elim (Bool-cases (stands (node x y g b) goal.x goal.y)) [
        | inl e ↦ rw e (h.trails.0, e)
        | inr e ↦
            rw (e, closed.computes, neighbors.computes)
              (elim (Option-cases popped) [
                | inl stuck ↦ rw stuck tt
                | inr (open', computes) ↦ rw computes (
                    loop open' closed.result
                      (Inv-Visited x y g b s tail closed_set closed.result open' h closed.real
                        closed.tidy closed.counts e (subst (OnSome _) computes visited))
                      (unclosed-lt closed_set closed.result x y
                        (λ a c. omega (arith, closed.counts a c)) (omega (arith, place))
                        (omega (arith, place)) (omega (arith, h.apart x y, self))
                        (omega (arith, closed.counts x y, self))))
              ])
      ]
    where
      closed : Added d (λ _. Unit) closed_set (node x y g b) (est_distance_g d map pose goal x y)
      closed =
          add_node-Added d (λ _. Unit) closed_set x y g b (est_distance_g d map pose goal x y)
            h.closed_real h.closed_tidy

      place : Interior x y
      place = Interior-Trail map pose (node x y g b) walled inside h.trails.0

      neighbors : IsNeighborList d map x y
      neighbors = gen_neighbors-IsNeighborList d map x y place

      popped : Option (LList Score)
      popped =
          each_popped neighbors.list (visit_neighbor d map pose goal closed.result x y g b)
            (some (or_new d tail))

      visited :
          OnSome (Visited d map pose goal closed.result x y g b (or_new d tail) no_list) popped
      visited =
          neighbors-Visited x y g b s tail closed_set (est_distance_g d map pose goal x y) h closed
            neighbors

      self : one (x == x && (y == y)) ≡ 1
      self = ground arith
