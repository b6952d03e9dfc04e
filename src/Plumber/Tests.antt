-- ===== src/Plumber/Tests.antt =====
-- Two components and a pipe between them.
use s3res.Prelude.{ℕ, none, some, List, [], ◌∷◌, get_or, ◌≡◌, ◌≢◌, refl, arith}
use s3res.Prelude.Int.{pos}
use s3res.CommTypes.{way_req}
use s3res.VoteBuff.RepType.{unreplicated, tmr}
use s3res.Plumber.{PlumbNode, null, wild, fresh_node, get_node, link_node}
use s3res.Plumber.Nodes.{Defines, get_node-add_node}
use s3res.Plumber.Link.{no_plumb_node, Gained, link_node-Gained}

abbrev planner : PlumbNode
planner = fresh_node "AStar" "./a_star" tmr "./VoterD" "100" "10"

abbrev navigator : PlumbNode
navigator = fresh_node "ArtPot" "./art_pot" unreplicated "" "" "9"

abbrev both : List PlumbNode
both = planner ∷ navigator ∷ []

finds : get_node null both "ArtPot" ≡ some (some 1)
unfolding get_node fresh_node
finds = refl

-- Behind the end of the list the code follows whatever the memory holds.
follows_wild : get_node wild both "Filter" ≡ none
unfolding get_node fresh_node
follows_wild = refl

get_node-add_node_example :
    Defines null null (planner ∷ []) navigator (get_node null (planner ∷ []) navigator.name)
get_node-add_node_example = get_node-add_node (planner ∷ []) navigator null null refl refl

link_node-Gained_example :
    (nodes' : List PlumbNode) × (link_node (some (3, 4)) way_req 1 (pos 0) 0 (pos 1) both
      ≡ some nodes')
    × Gained
        (record { type = way_req; fd_in = 0; fd_out = 4 })
        (get_or both 1 no_plumb_node)
        (get_or nodes' 1 no_plumb_node)
    × Gained
        (record { type = way_req; fd_in = 3; fd_out = 0 })
        (get_or both 0 no_plumb_node)
        (get_or nodes' 0 no_plumb_node)
    × ((i : ℕ) → 1 ≢ i → 0 ≢ i → get_or nodes' i no_plumb_node ≡ get_or both i no_plumb_node)
unfolding fresh_node
link_node-Gained_example =
    link_node-Gained 3 4 way_req 1 (pos 0) 0 (pos 1) both (λ (e : 1 ≡ 0). omega arith) (omega arith)
      (omega arith) (omega arith, refl) (omega arith, refl)
