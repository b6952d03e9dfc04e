-- ===== src/Plumber/Nodes.antt =====
-- The names of the components.
use Prim.Native.String.{String}
use text.Mathlib.Text.{◌==◌ as str_eq}
use text.Mathlib.TextEquality.{eq_iff}
use s3res.Prelude.{
  ℕ, suc, ◌⊎◌, true, false, Option, none, some, List, [], ◌∷◌, ◌++◌, length, if◌then◌else◌, ◌≡◌,
  refl, sym, subst, ◌∙◌, arith, Bool-cases, inl, inr,
}
use s3res.Plumber.{PlumbNode, Current, null, add_node, get_node}

-- the first, if it is one
abbrev or_else : Option (Option ℕ) → Option (Option ℕ) → Option (Option ℕ)
or_else none o = none
or_else (some none) o = o
or_else (some (some i)) o = some (some i)

get_node-append :
    (nodes : List PlumbNode) (new : PlumbNode) (s : String)
    → get_node null (nodes ++ new ∷ []) s
      ≡ or_else
          (get_node null nodes s)
          (if str_eq s new.name then some (some (length nodes)) else some none)
unfolding get_node
get_node-append [] new s = ground arith
get_node-append (n ∷ nodes) new s = ground (arith, get_node-append nodes new s)

-- With NULL at its end, the list is searched without an access elsewhere.
get_node-found :
    (nodes : List PlumbNode) (s : String)
    → (get_node null nodes s ≡ some none) ⊎ ((i : ℕ) × (get_node null nodes s ≡ some (some i)))
unfolding get_node
get_node-found [] s = inl refl
get_node-found (n ∷ nodes) s = elim (Bool-cases (str_eq s n.name)) [
  | inl same ↦ inr (0, rw same refl)
  | inr other ↦ elim (get_node-found nodes s) [
    | inl e ↦ inl (rw (other, e) refl)
    | inr (i, e) ↦ inr (suc i, rw (other, e) refl)
  ]
]

add_node-known :
    (nodes : List PlumbNode) (new : PlumbNode) (i : ℕ)
    → get_node null nodes new.name ≡ some (some i)
    → add_node null null nodes new ≡ some (false, nodes, null)
unfolding add_node get_node
add_node-known [] new i e = cc
add_node-known (n ∷ nodes) new i e = elim (Bool-cases (str_eq new.name n.name)) [
  | inl same ↦ rw same refl
  | inr other ↦ elim (get_node-found nodes new.name) [
    | inl nothing ↦ absurd (ground (arith, nothing, other))
    | inr (j, f) ↦ rw (other, add_node-known nodes new j f) refl
  ]
]

add_node-new :
    (nodes : List PlumbNode) (new : PlumbNode)
    → get_node null nodes new.name ≡ some none
    → add_node null null nodes new ≡ some (true, nodes ++ new ∷ [], null)
unfolding add_node get_node
add_node-new [] new e = refl
add_node-new (n ∷ nodes) new e = elim (Bool-cases (str_eq new.name n.name)) [
  | inl same ↦ absurd (ground (arith, same))
  | inr other ↦ elim (get_node-found nodes new.name) [
    | inl nothing ↦ rw (other, add_node-new nodes new nothing) refl
    | inr (j, f) ↦ absurd (ground (arith, f, other))
  ]
]

-- What `add_node` comes to, by what `get_node` has found under the name.
abbrev pub Defines :
    (allocated at_end : Current) → List PlumbNode → PlumbNode → Option (Option ℕ) → Type 0
Defines allocated at_end nodes new none = ⊥
Defines allocated at_end nodes new (some (some i)) =
    add_node allocated at_end nodes new ≡ some (false, nodes, at_end)
Defines allocated at_end nodes new (some none) =
    (add_node allocated at_end nodes new ≡ some (true, nodes ++ new ∷ [], allocated))
    × ((s : String)
        → get_node allocated (nodes ++ new ∷ []) s
          ≡ (if str_eq s new.name then some (some (length nodes)) else get_node at_end nodes s))

add_node-Defines :
    (nodes : List PlumbNode) (new : PlumbNode)
    → Defines null null nodes new (get_node null nodes new.name)
add_node-Defines nodes new = elim (get_node-found nodes new.name) [
  | inl e ↦ subst (Defines null null nodes new) (sym e) (add_node-new nodes new e, λ s. found s e)
  | inr (i, e) ↦ subst (Defines null null nodes new) (sym e) (add_node-known nodes new i e)
]
  where
    first_or : (o : Option (Option ℕ)) → or_else o (some none) ≡ o
    first_or none = refl
    first_or (some none) = refl
    first_or (some (some i)) = refl

    found :
        (s : String)
        → get_node null nodes new.name ≡ some none
        → get_node null (nodes ++ new ∷ []) s
          ≡ (if str_eq s new.name then some (some (length nodes)) else get_node null nodes s)
    found s e = elim (Bool-cases (str_eq s new.name)) [
      | inl same ↦
          let is_name = (eq_iff s new.name).0 same in
          let nothing : get_node null nodes s ≡ some none = rw is_name e in
          get_node-append nodes new s ∙ rw (same, nothing) refl
      | inr other ↦ get_node-append nodes new s ∙ rw other (first_or (get_node null nodes s))
    ]

-- If the uninitialised `current` at the end of the list is NULL, and so is that of the end that malloc()
-- gives, a component is defined once: `add_node` refuses a name that `get_node` finds, and leaves the list
-- as it is; else it adds the node at the end, where `get_node` then finds it, and finds every other name
-- where it did before, if it did. Neither follows a wild pointer.
pub get_node-add_node :
    (nodes : List PlumbNode) (new : PlumbNode) (allocated at_end : Current)
    → allocated ≡ null
    → at_end ≡ null
    → Defines allocated at_end nodes new (get_node at_end nodes new.name)
get_node-add_node nodes new allocated at_end allocated_null end_null =
    subst (λ a. Defines a at_end nodes new (get_node at_end nodes new.name)) (sym allocated_null)
      (subst (λ b. Defines null b nodes new (get_node b nodes new.name)) (sym end_null)
        (add_node-Defines nodes new))
