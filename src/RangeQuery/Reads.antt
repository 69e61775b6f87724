-- ===== src/RangeQuery/Reads.antt =====
-- How a client reads the tree of a version (client/range_query.cpp). The gets that a callback starts
-- are answered one after the other. The state is the result, and the replicas of each page. A page
-- number out of range (an assertion of debug builds) gives `none`.
use blobseer.RangeQuery.{read_node}
use blobseer.RangeQuery.Replicas.{RandomSelect, null_select, set_providers}
use blobseer.Rpc.{Buffer, Codec}
use blobseer.Structures.{Provider, Query, Root, TreeNode, intersects}
use blobseer.Prelude.{
  ℕ, zero, suc, ◌+◌, ◌-◌, ◌/◌, ◌%◌, Bool, true, false, Option, none, some, List, length, get_or,
  set_at, u32, u64, ltb, if◌then◌else◌,
}

abbrev pub ReadState : Type 0
ReadState = Bool × List RandomSelect

unfoldable pub leaf_callback :
    Codec (List Provider) → Query → ℕ → Buffer → ReadState → Option ReadState
leaf_callback c page_key index val (false, leaves) = some (false, leaves)
leaf_callback c page_key index val (true, leaves) =
    let (found, s) = set_providers c page_key val (get_or leaves index null_select) in
    if ltb index (length leaves) then some (found, set_at index s leaves) else none

-- A child is read if it intersects the range.
abbrev pub visit :
    Query
    → (ℕ → Buffer → ReadState → Option ReadState)
    → Buffer
    → Query
    → ReadState
    → Option ReadState
visit range read val q s = elim (intersects q range) [ true ↦ read q.offset val s | false ↦ some s ]

-- One callback after another.
abbrev pub and_then : Option ReadState → (ReadState → Option ReadState) → Option ReadState
and_then none k = none
and_then (some s) k = k s

module _ (c : Codec TreeNode) (lc : Codec (List Provider)) (lookup : Query → Buffer) (range : Query)
    (page_size : ℕ) where
  -- `read_callback` and the gets that it starts, on fuel.
  unfoldable pub read_callback : ℕ → ℕ → Buffer → ReadState → Option ReadState
  read_callback zero offset val s = none
  read_callback (suc fuel) offset val (false, leaves) = some (false, leaves)
  read_callback (suc fuel) offset val (true, leaves) = elim (read_node c val) [
    | none ↦ some (false, leaves)
    | some n ↦ elim n.is_leaf [
      | true ↦
          leaf_callback lc n.left (((offset + u64 - range.offset) % u64) / page_size % u32)
            (lookup n.left) (true, leaves)
      | false ↦
          and_then (visit range (read_callback fuel) (lookup n.left) n.left (true, leaves))
            (visit range (read_callback fuel) (lookup n.right) n.right)
    ]
  ]

unfoldable pub read_record_locations :
    Codec TreeNode
    → Codec (List Provider)
    → (Query → Buffer)
    → ℕ
    → List RandomSelect
    → Query
    → Root
    → Option ReadState
read_record_locations c lc lookup fuel leaves range root =
    read_callback c lc lookup range root.page_size fuel 0 (lookup root.node) (true, leaves)
