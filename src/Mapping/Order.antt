-- ===== src/Mapping/Order.antt =====
-- The lists of mapping.c are kept in the order of their scores.
use s3res.Prelude.{true, false, Option, none, some, ◌≡◌, Bool-cases, inl, inr, OnSome, if_both, ℕ}
use s3res.Mapping.{
  Doubles, Node, no_node, node, LList, no_list, cell, node_equals, remove_node, add_node,
}

-- What `lt` is like on doubles that are not NaN.
pub record IsOrder {Score : Type 0} (d : Doubles Score) : Type 0 where
  pub asym : (a b : Score) → d.lt a b ≡ true → d.lt b a ≡ false
  pub trans : (a b c : Score) → d.lt b a ≡ false → d.lt c b ≡ false → d.lt c a ≡ false

module _ {Score : Type 0} (d : Doubles Score) where
  -- No node of the list has a lower score.
  abbrev pub Above : Score → LList Score → Type 0
  Above v no_list = Unit
  Above v (cell no_node _ tail) = Above v tail
  Above v (cell (node _ _ _ _) s tail) = (d.lt s v ≡ false) × Above v tail

  -- Each node comes before the nodes whose scores are higher.
  abbrev pub Sorted : LList Score → Type 0
  Sorted no_list = Unit
  Sorted (cell no_node _ tail) = tail ≡ no_list
  Sorted (cell (node _ _ _ _) s tail) = Above s tail × Sorted tail

module _ {Score : Type 0} (d : Doubles Score) (order : IsOrder d) where
  Above-trans : (v s : Score) (l : LList Score) → d.lt s v ≡ false → Above d s l → Above d v l
  Above-trans v s no_list h k = tt
  Above-trans v s (cell no_node t tail) h k = Above-trans v s tail h k
  Above-trans v s (cell (node x y g b) t tail) h k =
      (order.trans v s t h k.0, Above-trans v s tail h k.1)

  Above-add_node :
      (u : Score) (l : LList Score) (x y : ℕ) (g : Score) (b : Node Score) (v : Score)
      → d.lt v u ≡ false
      → Above d u l
      → OnSome (Above d u) (add_node d l (node x y g b) v)
  unfolding add_node
  Above-add_node u no_list x y g b v h k = tt
  Above-add_node u (cell no_node s tail) x y g b v h k = (h, k)
  Above-add_node u (cell (node x' y' g' b') s no_list) x y g b v h k =
      if_both (OnSome (Above d u)) (d.lt v s) (h, k) (k.0, (h, tt))
  Above-add_node u (cell (node x' y' g' b') s (cell n t tail)) x y g b v h k =
      if_both (OnSome (Above d u)) (d.lt v s) (h, k)
        (kept (add_node d (cell n t tail) (node x y g b) v)
          (Above-add_node u (cell n t tail) x y g b v h k.1))
    where
      kept :
          (rest : Option (LList Score))
          → OnSome (Above d u) rest
          → OnSome
              (Above d u)
              (elim rest [ none ↦ none | some l ↦ some (cell (node x' y' g' b') s l) ])
      kept none a = tt
      kept (some l) a = (k.0, a)

  -- `addNode` keeps the order.
  pub add_node-Sorted :
      (l : LList Score) (x y : ℕ) (g : Score) (b : Node Score) (v : Score)
      → Sorted d l
      → OnSome (Sorted d) (add_node d l (node x y g b) v)
  unfolding add_node
  add_node-Sorted no_list x y g b v h = tt
  add_node-Sorted (cell no_node s tail) x y g b v h = rw h (tt, tt)
  add_node-Sorted (cell (node x' y' g' b') s no_list) x y g b v h = elim (Bool-cases (d.lt v s)) [
    | inl e ↦ rw e ((order.asym v s e, tt), h)
    | inr e ↦ rw e ((e, tt), (tt, tt))
  ]
  add_node-Sorted (cell (node x' y' g' b') s (cell n t tail)) x y g b v h =
      elim (Bool-cases (d.lt v s)) [
        | inl e ↦
            rw e ((order.asym v s e, Above-trans v s (cell n t tail) (order.asym v s e) h.0), h)
        | inr e ↦ rw e (
            kept (add_node d (cell n t tail) (node x y g b) v)
              (add_node-Sorted (cell n t tail) x y g b v h.1)
              (Above-add_node s (cell n t tail) x y g b v e h.0))
      ]
    where
      kept :
          (rest : Option (LList Score))
          → OnSome (Sorted d) rest
          → OnSome (Above d s) rest
          → OnSome
              (Sorted d)
              (elim rest [ none ↦ none | some l ↦ some (cell (node x' y' g' b') s l) ])
      kept none a b = tt
      kept (some l) a b = (b, a)

  Above-remove_node :
      (u : Score) (l : LList Score) (n : Node Score) → Above d u l → Above d u (remove_node l n)
  unfolding remove_node
  Above-remove_node u no_list n h = h
  Above-remove_node u (cell no_node s tail) n h = h
  Above-remove_node u (cell (node x y g b) s tail) n h =
      if_both (Above d u) (node_equals (node x y g b) n) h.1 (h.0, Above-remove_node u tail n h.1)

  -- `removeNode` keeps the order.
  pub remove_node-Sorted :
      (l : LList Score) (n : Node Score) → Sorted d l → Sorted d (remove_node l n)
  unfolding remove_node
  remove_node-Sorted no_list n h = h
  remove_node-Sorted (cell no_node s tail) n h = h
  remove_node-Sorted (cell (node x y g b) s tail) n h =
      if_both (Sorted d) (node_equals (node x y g b) n) h.1
        (Above-remove_node s tail n h.0, remove_node-Sorted tail n h.1)

  -- Where the scores are ordered, a list in the order of its scores stays so when a place is removed and
  -- its node is added with another score, if there is still a list to add it to: no node stands behind a
  -- node with a higher score.
  pub add_node-remove_node-Sorted :
      (l : LList Score) (n : Node Score) (x y : ℕ) (g : Score) (b : Node Score) (v : Score)
      → Sorted d l
      → OnSome (Sorted d) (add_node d (remove_node l n) (node x y g b) v)
  add_node-remove_node-Sorted l n x y g b v h =
      add_node-Sorted (remove_node l n) x y g b v (remove_node-Sorted l n h)
