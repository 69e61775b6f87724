-- ===== src/RangeQuery.antt =====
-- client/range_query.cpp: how a client writes the tree of a version. The hash table is a
-- parameter: `lookup` gives the value that `get` passes to its callback, the empty buffer where
-- there is none. A put is recorded, in the order of the calls; `alive n` says whether all answers
-- to the first `n` puts that have come in by then were good.
pub mod Placement
pub mod Siblings
pub mod Nodes
pub mod Tree
pub mod Levels
pub mod Pending
pub mod Records
pub mod Leaves
pub mod Replicas
pub mod Reads
pub mod Visible
pub mod Served
pub mod Seen
pub mod RoundTrip
pub mod ReadBack
use blobseer.Rpc.{Buffer, Codec, Got, good, get_value}
use blobseer.Structures.{
  Provider, Query, Root, TreeNode, Position, root, left_child, right_child, null_query, get_parent,
  intersects, is_empty_query, same_query, search_list,
}
use blobseer.VManager.{Reply}
use blobseer.VManager.Intervals.{Entry}
use blobseer.Prelude.{
  ℕ, zero, suc, ◌+◌, ◌-◌, ◌*◌, ◌/◌, ◌%◌, Bool, true, false, not, ◌&&◌, Option, none, some, List, [],
  ◌∷◌, ◌++◌, get_or, last_or, reverse, u64, ltb, ◌==◌, if◌then◌else◌,
}

-- A `put` of the providers of a page, or of a node of the tree.
pub data Put : Type 0 where
  page_put : Query → List Provider → Put
  node_put : Query → TreeNode → Put

-- `read_node`, and `read_pnode` for a result that is still good.
abbrev pub of_got : Got TreeNode → Option TreeNode
of_got (good n) = some n
of_got _ = none

unfoldable pub read_node : Codec TreeNode → Buffer → Option TreeNode
read_node c [] = none
read_node c (x ∷ b) = of_got (get_value c (x ∷ b))

-- The children of a node, with the places that `siblings_callback` gives them.
abbrev pub left_of : Query → TreeNode → Query
left_of parent n = record (n.left) { offset = parent.offset; size = parent.size / 2 }

abbrev pub right_of : Query → TreeNode → Query
right_of parent n = record (n.right) {
  offset = (parent.offset + parent.size / 2) % u64;
  size = parent.size / 2;
}

-- A sibling is added unless one stands at its place.
abbrev pub push_sibling : Query → List Query → List Query
push_sibling q siblings =
    if is_empty_query (search_list siblings q.offset q.size) then siblings ++ q ∷ [] else siblings

-- The siblings after an inner node, and the child to go on with.
unfoldable pub step_down : Bool → Query → List Query → Query → TreeNode → List Query × Query
step_down is_left target siblings parent n =
    if intersects (left_of parent n) target
    then (if is_left then siblings else push_sibling (right_of parent n) siblings, left_of parent n)
    else (if is_left then push_sibling (left_of parent n) siblings else siblings, right_of parent n)

-- `siblings_callback` and the gets that it starts, one after the other, on fuel.
unfoldable pub siblings_callback :
    Codec TreeNode
    → (Query → Buffer)
    → ℕ
    → Bool
    → Query
    → List Query
    → Query
    → Buffer
    → Option (List Query)
siblings_callback c lookup zero is_left target siblings parent val = none
siblings_callback c lookup (suc fuel) is_left target siblings parent val = elim (read_node c val) [
  | none ↦ some siblings
  | some n ↦
      let (siblings', child) = step_down is_left target siblings parent n in
      let rest = siblings_callback c lookup fuel is_left target siblings' child (lookup child) in
      if n.is_leaf then some siblings else rest
]

-- The first interval, from the newest on, that intersects the node.
unfoldable pub first_hit : Query → List Entry → Option ℕ
first_hit brother [] = none
first_hit brother (e ∷ es) =
    if intersects brother e.key then some (e.key.version) else first_hit brother es

-- The brother of a node, and the offset of their parent.
unfoldable pub brother_of : Query → Query × ℕ
brother_of node =
    if node.offset % ((2 * node.size) % u64) == 0
    then (record node { offset = (node.offset + node.size) % u64 }, node.offset)
    else (
      record node { offset = (node.offset + u64 - node.size) % u64 },
      (node.offset + u64 - node.size) % u64,
    )

abbrev pub add_version : Query → Option ℕ → List Query → List Query
add_version brother none siblings = siblings
add_version brother (some v) siblings = siblings ++ record brother { version = v } ∷ []

-- The loop of `compute_sibling_versions`, on fuel; `newest` are the intervals from the newest on.
unfoldable pub sibling_versions : ℕ → List Entry → ℕ → Query → List Query → Option (List Query)
sibling_versions zero newest root_size node siblings = none
sibling_versions (suc fuel) newest root_size node siblings =
    let (brother, offset) = brother_of node in
    let next =
      sibling_versions fuel newest root_size
        (record node { offset = offset; size = (2 * node.size) % u64 })
        (add_version brother (first_hit brother newest) siblings) in
    if ltb node.size root_size then next else some siblings

unfoldable pub compute_sibling_versions : Query → List Entry → ℕ → Option (List Query)
compute_sibling_versions edge_node intervals root_size =
    sibling_versions 65 (reverse intervals) root_size edge_node []

-- The next node, if it is the right child of the same parent.
unfoldable pub partner : ℕ → Query → List Query → Option (Query × List Query)
partner root_size parent [] = none
partner root_size parent (r ∷ rest) =
    if not (r.size == root_size)
      && (elim (get_parent r).1 [ right_child ↦ true | _ ↦ false ]
          && same_query parent (get_parent r).0)
    then some (r, rest)
    else none

-- The children of the parent of `q`, and the rest of the queue.
unfoldable pub children_of :
    List Query → List Query → ℕ → Query → List Query → TreeNode × List Query
children_of lefts rights root_size q rest =
    let (parent, position) = get_parent q in
    elim (partner root_size parent rest) [
      | some (r, rest') ↦ (record { is_leaf = false; left = q; right = r }, rest')
      | none ↦ (
        elim position [
          | right_child ↦ record {
            is_leaf = false;
            left = search_list lefts ((q.offset + u64 - q.size) % u64) q.size;
            right = q;
          }
          | _ ↦ record {
            is_leaf = false;
            left = q;
            right = search_list rights ((q.offset + q.size) % u64) q.size;
          }
        ],
        rest,
      )
    ]

abbrev pub put_first :
    Query → TreeNode → Option (List (Query × TreeNode)) → Option (List (Query × TreeNode))
put_first parent node none = none
put_first parent node (some puts) = some ((parent, node) ∷ puts)

-- The loop over the queue of nodes, on fuel: the puts of the inner nodes. `n` puts went before.
unfoldable pub process :
    (ℕ → Bool) → List Query → List Query → ℕ → ℕ → ℕ → List Query → Option (List (Query × TreeNode))
process alive lefts rights root_size zero n queue = none
process alive lefts rights root_size (suc fuel) n [] = some []
process alive lefts rights root_size (suc fuel) n (q ∷ rest) =
    let parent = (get_parent q).0 in
    let (node, rest') = children_of lefts rights root_size q rest in
    let at_root = q.size == root_size in
    let more =
      process alive lefts rights root_size fuel (if at_root then n else suc n)
        (if at_root then rest else rest' ++ parent ∷ []) in
    if not (alive n) then some [] else if at_root then more else put_first parent node more
