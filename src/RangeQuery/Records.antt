-- ===== src/RangeQuery/Records.antt =====
-- `writeRecordLocations` of client/range_query.cpp as a whole. `depth` is fuel for the descents in
-- the stable tree, and `final` says whether all answers to the puts were good in the end.
use mathlib.Core.Option
use blobseer.RangeQuery.{
  Put, page_put, node_put, siblings_callback, push_sibling, compute_sibling_versions, process,
}
use blobseer.Rpc.{Buffer, Codec}
use blobseer.Structures.{Provider, Query, Root, TreeNode, null_query, intersects}
use blobseer.VManager.{Reply}
use blobseer.VManager.Intervals.{Entry}
use blobseer.Prelude.{
  ℕ, ◌+◌, ◌-◌, ◌*◌, ◌/◌, ◌%◌, Bool, true, false, not, Option, none, some, List, [], ◌∷◌, ◌++◌, map,
  length, take, drop, u32, u64, ◌==◌, if◌then◌else◌,
}

-- The node of a page: its number in the write becomes its place in the blob.
abbrev pub placed : Query → Query → Query
placed query q = record q {
  version = query.version;
  offset = (query.offset + q.offset * q.size) % u64;
}

abbrev pub leaf : Query → TreeNode
leaf q = record { is_leaf = true; left = q; right = null_query }

-- The first loop: the puts of the pages and of the leaves, and the queue. `n` puts went before, and
-- `j` providers were used. (Beyond the end of the list the code reads what is not there; here the
-- providers end.)
unfoldable pub put_leaves :
    (ℕ → Bool) → ℕ → List Provider → Query → ℕ → ℕ → List Query → List Put × List Query
put_leaves alive replicas providers query n j [] = ([], [])
put_leaves alive replicas providers query n j (q ∷ rest) =
    let (puts, queue) =
      put_leaves alive replicas providers query (n + 2) ((j + replicas) % u32) rest in
    if not (alive n) then ([], q ∷ rest) else (
      page_put q (take replicas (drop j providers)) ∷ node_put (placed query q) (leaf q) ∷ puts,
      placed query q ∷ queue,
    )

-- The leaves at the ends of the write.
abbrev pub left_leaf : Query → ℕ → Query
left_leaf query page_size = record query {
  offset = query.offset / page_size * page_size;
  size = page_size;
}

abbrev pub right_leaf : Query → ℕ → Query
right_leaf query page_size =
    let stop = (query.offset + query.size) % u64 in
    record query {
      offset =
          ((stop / page_size + u64 - (if stop % page_size == 0 then 1 else 0)) % u64 * page_size)
          % u64;
      size = page_size;
    }

-- The newest entry, and the others.
abbrev pub newest_key : Entry → List Entry → Query
newest_key e [] = e.key
newest_key e (x ∷ xs) = newest_key x xs

abbrev pub all_but_last : List Entry → List Entry
all_but_last [] = []
all_but_last (e ∷ []) = []
all_but_last (e ∷ x ∷ xs) = e ∷ all_but_last (x ∷ xs)

abbrev pub front_of : List Query → Query
front_of [] = null_query
front_of (q ∷ qs) = q

abbrev pub back_of : List Query → Query
back_of [] = null_query
back_of (q ∷ []) = q
back_of (q ∷ r ∷ qs) = back_of (r ∷ qs)

module _ (c : Codec TreeNode) (lookup : Query → Buffer) (depth : ℕ) where
  -- The siblings on the left: those of pending writes, and those of the stable tree.
  unfoldable pub left_siblings : Query → List Entry → ℕ → Root → Query → Option (List Query)
  left_siblings edge intervals root_size stable front =
      elim (compute_sibling_versions edge intervals root_size) [
        | none ↦ none
        | some l ↦
            if intersects stable.node front
            then siblings_callback c lookup depth true front l stable.node (lookup stable.node)
            else some (push_sibling stable.node l)
      ]

  unfoldable pub right_siblings : Query → List Entry → ℕ → Root → Query → Option (List Query)
  right_siblings edge intervals root_size stable back =
      elim (compute_sibling_versions edge intervals root_size) [
        | none ↦ none
        | some l ↦
            if intersects stable.node back
            then siblings_callback c lookup depth false back l stable.node (lookup stable.node)
            else some l
      ]

  -- The puts of the inner nodes, after `n` puts: enough fuel for 64 levels.
  unfoldable pub put_inner :
      (ℕ → Bool)
      → ℕ
      → ℕ
      → List Query
      → Option (List Query)
      → Option (List Query)
      → Option (List (Query × TreeNode))
  put_inner alive root_size n queue none rights = none
  put_inner alive root_size n queue (some l) none = none
  put_inner alive root_size n queue (some l) (some r) =
      process alive l r root_size (64 * length queue + 2) n queue

  -- The result and the puts, in order. A reply without intervals does not occur.
  unfoldable pub write_record_locations :
      (ℕ → Bool) → Bool → Reply → List Provider → List Query → Option (Bool × List Put)
  write_record_locations alive final reply providers [] = some (false, [])
  write_record_locations alive final reply providers (q ∷ qs) = elim reply.intervals [
    | [] ↦ none
    | e ∷ es ↦
        let query = newest_key e es in
        let stable = reply.stable_root in
        let others = all_but_last (e ∷ es) in
        let (leaves, queue) = put_leaves alive stable.replica_count providers query 0 0 (q ∷ qs) in
        let lefts =
          left_siblings (left_leaf query stable.page_size) others reply.root_size stable
            (front_of queue) in
        let rights =
          right_siblings (right_leaf query stable.page_size) others reply.root_size stable
            (back_of queue) in
        Option.map (λ inner. (final, leaves ++ map (λ (p, n). node_put p n) inner))
          (put_inner alive reply.root_size (length leaves) queue lefts rights)
  ]
