-- ===== src/RangeQuery/ReadBack.antt =====
-- `readRecordLocations` after `writeRecordLocations` (client/range_query.cpp).
use native.Mathlib.Nat.{mul_comm, mul-le-mul_right}
use blobseer.RangeQuery.{Put, node_put}
use blobseer.RangeQuery.Leaves.{page_keys, page_puts, write_record_locations-tree}
use blobseer.RangeQuery.Placement.{node_at}
use blobseer.RangeQuery.Reads.{read_callback, read_record_locations}
use blobseer.RangeQuery.Replicas.{RandomSelect, null_select}
use blobseer.RangeQuery.Records.{
  left_leaf, right_leaf, newest_key, all_but_last, left_siblings, right_siblings,
  write_record_locations,
}
use blobseer.RangeQuery.RoundTrip.{climb, chosen, leaf_See}
use blobseer.RangeQuery.Seen.{See, Level}
use blobseer.RangeQuery.Served.{Serves, ServesNode}
use blobseer.RangeQuery.Tree.{tree}
use blobseer.RangeQuery.Visible.{read_callback-Sets}
use blobseer.Rpc.{Buffer, Codec}
use blobseer.Structures.{Provider, Query, Root, TreeNode}
use blobseer.VManager.{Reply}
use blobseer.VManager.Intervals.{Entry}
use blobseer.Prelude.{
  ℕ, suc, ◌+◌, ◌*◌, ◌^◌, ◌≤◌, ◌<◌, ◌≡◌, sym, ap, subst, ◌∙◌, Bool, true, some, List, [], ◌∷◌, ◌++◌,
  map, length, get_or, All, All-split, Option, none, u32, arith,
}

module _ (c : Codec TreeNode) (lc : Codec (List Provider)) (lookup : Query → Buffer) where
  nodes_served :
      (l : List (Query × TreeNode))
      → All (Serves c lc lookup) (map (λ (p, t). node_put p t) l)
      → All (ServesNode c lc lookup) l
  nodes_served [] all = tt
  nodes_served ((q, t) ∷ l) all = (all.0, nodes_served l all.1)

  -- What a reader of the pages `a` to `a + n` gets.
  read_back :
      (id v version size a n h replicas fuel : ℕ) (providers : List Provider)
      (lefts rights : List Query) (range : Query) (root : Root) (leaves : List RandomSelect)
      → 0 < size
      → size * 2 ^ h ≤ 2 ^ 62
      → a + n < 2 ^ h
      → suc n < u32
      → All (Serves c lc lookup) (
          page_puts id v version size a replicas providers 0 (suc n)
          ++ map (λ (p, t). node_put p t) (tree id version lefts rights h size a n))
      → range.offset ≡ a * size
      → range.size ≡ suc n * size
      → root.page_size ≡ size
      → root.node ≡ node_at id version (size * 2 ^ h) 0
      → length leaves ≡ suc n
      → h < fuel
      → (leaves' : List RandomSelect) × (read_record_locations c lc lookup fuel leaves range root
          ≡ some (true, leaves'))
        × ((j : ℕ)
            → j ≤ n
            → get_or leaves' j null_select
              ≡ chosen c lc lookup id v version size a replicas providers (a + j))
  unfolding read_record_locations
  read_back id v version size a n h replicas fuel providers lefts rights range root leaves pos small
        within few all at long paged rooted len enough =
      let (pages, nodes) =
        All-split (Serves c lc lookup) (page_puts id v version size a replicas providers 0 (suc n))
          (map (λ (p, t). node_put p t) (tree id version lefts rights h size a n)) all in
      let pick = chosen c lc lookup id v version size a replicas providers in
      let one : (x : ℕ) → x * 2 ^ 0 ≡ x = λ x. omega arith in
      let bottom : Level c lc lookup id version lefts rights range size a n pick pos at long 0 size
          a n =
        record {
          scale = omega arith;
          low = omega arith;
          low' = omega arith;
          high = omega arith;
          high' = omega arith;
        } in
      let see =
        climb c lc lookup id version lefts rights range size a n pick pos at long h 0 size a n
          bottom (omega (arith, mul_comm (2 ^ h) size, ap (λ t. t * size) (once (2 ^ h)), small))
          within (nodes_served (tree id version lefts rights h size a n) nodes)
          (λ x from to.
            subst
              (λ t.
                See c lc lookup id version lefts rights range size a n pick pos at long 0 t
                  (node_at id version size x))
              (sym (one x))
              (leaf_See c lc lookup id v version size a replicas providers lefts rights range n pos
                at long x pages from to)) in
      let last : a + suc n ≤ 2 ^ h = omega (arith, within) in
      let (leaves', e, sets) =
        read_callback-Sets c lc lookup range size a (suc n) pick pos at few
          (omega (arith, mul-le-mul_right size last, mul_comm (2 ^ h) size, small)) h fuel 0
          (node_at id version (size * 2 ^ h) 0) leaves enough len
          (subst
            (λ t.
              See c lc lookup id version lefts rights range size a n pick pos at long t 0
                (node_at id version (size * 2 ^ h) 0))
            (none_more h) see) in
      let start : 0 * size ≡ 0 = omega arith in
      (
        leaves',
        ap (λ t. read_callback c lc lookup range t fuel 0 (lookup root.node) (true, leaves)) paged
            ∙ ap (λ q. read_callback c lc lookup range size fuel 0 (lookup q) (true, leaves)) rooted
            ∙ ap
                (λ t.
                  read_callback c lc lookup range size fuel t
                    (lookup (node_at id version (size * 2 ^ h) 0)) (true, leaves))
                (sym start)
            ∙ e,
        λ j le. sets.1 j (omega (arith, le)) (omega arith) (omega (arith, le, last)),
      )
    where
      once : (w : ℕ) → 2 ^ 0 * w ≡ w
      once w = omega arith

      none_more : (h : ℕ) → h + 0 ≡ h
      none_more h = omega arith

-- What a write puts, a read of the same pages finds. Where the puts of a write of `suc n` whole pages
-- from page `a` on are served by the table afterwards, reading these pages from the root of the
-- version gives each page the key under which it was stored and its own group of providers, in
-- their order. This for a write with no failed put, trees of at most 2^62 bytes that hold the
-- write, fewer than 2^32 pages and providers in all, and fuel for more levels than the tree has.
pub write-read_record_locations :
    (c : Codec TreeNode) (lc : Codec (List Provider)) (before after : Query → Buffer)
    (depth fuel : ℕ) (alive : ℕ → Bool) (final : Bool) (reply : Reply) (providers : List Provider)
    (id v size a n h : ℕ) (e : Entry) (es : List Entry) (lefts rights : List Query)
    (puts : List Put) (range : Query) (root : Root) (leaves : List RandomSelect)
    → let query = newest_key e es in
      let stable = reply.stable_root in
      let others = all_but_last (e ∷ es) in
      ((k : ℕ) → alive k ≡ true)
      → reply.intervals ≡ e ∷ es
      → query.offset ≡ a * size
      → 0 < size
      → size * 2 ^ h ≡ reply.root_size
      → reply.root_size ≤ 2 ^ 62
      → a + n < 2 ^ h
      → suc n * stable.replica_count < u32
      → suc n < u32
      → left_siblings c before depth
          (left_leaf query stable.page_size)
          others
          reply.root_size
          stable
          (node_at id query.version size a)
        ≡ some lefts
      → right_siblings c before depth
          (right_leaf query stable.page_size)
          others
          reply.root_size
          stable
          (node_at id query.version size (a + n))
        ≡ some rights
      → write_record_locations c before depth alive final reply providers
          (page_keys id v size 0 (suc n))
        ≡ some (final, puts)
      → All (Serves c lc after) puts
      → range.offset ≡ a * size
      → range.size ≡ suc n * size
      → root.page_size ≡ size
      → root.node ≡ node_at id query.version reply.root_size 0
      → length leaves ≡ suc n
      → h < fuel
      → (leaves' : List RandomSelect) × (read_record_locations c lc after fuel leaves range root
          ≡ some (true, leaves'))
        × ((j : ℕ)
            → j ≤ n
            → get_or leaves' j null_select
              ≡ chosen c lc after id v query.version size a stable.replica_count providers (a + j))
write-read_record_locations c lc before after depth fuel alive final reply providers id v size a n h
      e es lefts rights puts range root leaves good queue start pos tall small within few pages left
      right wrote served at long paged rooted len enough =
    let query = newest_key e es in
    let replicas = reply.stable_root.replica_count in
    let put =
      write_record_locations-tree c before depth alive final reply providers id v size a n h e es
        lefts rights good queue start pos tall small within few left right in
    let same = ap (puts_or puts) (sym wrote ∙ put) in
    read_back c lc after id v query.version size a n h replicas fuel providers lefts rights range
      root leaves pos (omega (arith, tall, small)) within pages
      (subst (All (Serves c lc after)) same served) at long paged
      (rooted ∙ ap (λ t. node_at id query.version t 0) (sym tall)) len enough
  where
    puts_or : List Put → Option (Bool × List Put) → List Put
    puts_or d none = d
    puts_or d (some (b, p)) = p
