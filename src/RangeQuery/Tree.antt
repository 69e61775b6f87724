-- ===== src/RangeQuery/Tree.antt =====
-- The inner nodes that a writer puts: level by level, from the left, the parents of a run of nodes.
use blobseer.RangeQuery.Placement.{node_at}
use blobseer.Structures.{Query, TreeNode, search_list}
use blobseer.Prelude.{
  ℕ, zero, suc, ◌+◌, ◌-◌, ◌*◌, ◌/◌, ◌%◌, List, [], ◌∷◌, ◌++◌, false, u64, ◌==◌, if◌then◌else◌,
}

abbrev pub inner : Query → Query → TreeNode
inner left right = record { is_leaf = false; left = left; right = right }

module _ (id version : ℕ) (lefts rights : List Query) where
  -- `n` nodes of a size from the number `i` on.
  abbrev pub run : ℕ → ℕ → ℕ → List Query
  run size i zero = []
  run size i (suc n) = node_at id version size i ∷ run size (suc i) n

  -- The right brother of the last node of a level, the left brother of the first.
  abbrev pub right_brother : ℕ → ℕ → Query
  right_brother size i = search_list rights (((node_at id version size i).offset + size) % u64) size

  abbrev pub left_brother : ℕ → ℕ → Query
  left_brother size i =
      search_list lefts (((node_at id version size i).offset + u64 - size) % u64) size

  -- The parents of `n` nodes from number `2 * j` on.
  abbrev pub pass : ℕ → ℕ → ℕ → List (Query × TreeNode)
  pass size j zero = []
  pass size j (suc zero) =
      (
        node_at id version (2 * size) j,
        inner (node_at id version size (2 * j)) (right_brother size (2 * j)),
      )
      ∷ []
  pass size j (suc (suc n)) =
      (
        node_at id version (2 * size) j,
        inner (node_at id version size (2 * j)) (node_at id version size (2 * j + 1)),
      )
      ∷ pass size (suc j) n

  -- The parents of `suc n` nodes from number `2 * j + 1` on.
  abbrev pub pass_odd : ℕ → ℕ → ℕ → List (Query × TreeNode)
  pass_odd size j n =
      (
        node_at id version (2 * size) j,
        inner (left_brother size (2 * j + 1)) (node_at id version size (2 * j + 1)),
      )
      ∷ pass size (suc j) n

  -- The parents of `suc n` nodes from number `i` on.
  abbrev pub parents : ℕ → ℕ → ℕ → List (Query × TreeNode)
  parents size i n = if i % 2 == 0 then pass size (i / 2) (suc n) else pass_odd size (i / 2) n

  -- The ancestors of `suc n` nodes from number `i` on, `h` levels up.
  unfoldable pub tree : ℕ → ℕ → ℕ → ℕ → List (Query × TreeNode)
  tree zero size i n = []
  tree (suc h) size i n = parents size i n ++ tree h (2 * size) (i / 2) ((i + n) / 2 - i / 2)
