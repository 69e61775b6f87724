-- ===== src/RangeQuery/Leaves.antt =====
-- What `writeRecordLocations` of client/range_query.cpp puts: the pages, the leaves and the nodes
-- above them.
use native.Mathlib.Nat.{suc-mul, add-mul, mul_comm, mul-le-mul_right, pow-succ'}
use blobseer.RangeQuery.{Put, page_put, node_put}
use blobseer.RangeQuery.Levels.{process-tree, length-parents}
use blobseer.RangeQuery.Placement.{node_at}
use blobseer.RangeQuery.Records.{
  put_leaves, leaf, left_leaf, right_leaf, newest_key, all_but_last, back_of, left_siblings,
  right_siblings, put_inner, write_record_locations,
}
use blobseer.RangeQuery.Tree.{run, tree, parents}
use blobseer.Rpc.{Buffer, Codec}
use blobseer.Structures.{Provider, Query, TreeNode}
use blobseer.VManager.{Reply}
use blobseer.VManager.Intervals.{Entry}
use blobseer.Prelude.{
  ℕ, zero, suc, ◌+◌, ◌*◌, ◌%◌, ◌/◌, ◌-◌, ◌^◌, ◌≤◌, ◌<◌, ◌≡◌, refl, sym, ap, ◌∙◌, Bool, true, some,
  List, [], ◌∷◌, ◌++◌, map, length, length-append, take, drop, u32, u64, arith, inl, inr,
  Bool-cases, leb,
}

-- The keys of `n` pages of a write, from the one with number `i` on.
abbrev pub page_keys : ℕ → ℕ → ℕ → ℕ → ℕ → List Query
page_keys id v size i zero = []
page_keys id v size i (suc n) =
    record { id = id; version = v; offset = i; size = size } ∷ page_keys id v size (suc i) n

module _ (id v version size a replicas : ℕ) (providers : List Provider) where
  -- The puts of `n` pages and of their leaves, each page with its own group of providers.
  abbrev pub page_puts : ℕ → ℕ → List Put
  page_puts i zero = []
  page_puts i (suc n) =
      let key : Query = record { id = id; version = v; offset = i; size = size } in
      page_put key (take replicas (drop (i * replicas) providers))
      ∷ node_put (node_at id version size (a + i)) (leaf key)
      ∷ page_puts (suc i) n

  length-page_puts : (i n : ℕ) → length (page_puts i n) ≡ 2 * n
  length-page_puts i zero = refl
  length-page_puts i (suc n) = omega (arith, length-page_puts (suc i) n)

  module _ (alive : ℕ → Bool) (good : (n : ℕ) → alive n ≡ true) (query : Query)
      (at : query.offset ≡ a * size) (of : query.version ≡ version) where
    put_leaves-run :
        (lefts rights : List Query) (k i n : ℕ)
        → (i + n) * replicas < u32
        → (a + i + n) * size ≤ 2 ^ 62
        → put_leaves alive replicas providers query k (i * replicas) (page_keys id v size i n)
          ≡ (page_puts i n, run id version lefts rights size (a + i) n)
    unfolding put_leaves
    put_leaves-run lefts rights k i zero few small = refl
    put_leaves-run lefts rights k i (suc n) few small =
        let count : suc i + n ≡ i + suc n = omega arith in
        let shift : a + suc i + n ≡ a + i + suc n = omega arith in
        let number : a + suc i ≡ suc (a + i) = omega arith in
        let one : suc i ≤ i + suc n = omega arith in
        let low : a + i ≤ a + i + suc n = omega arith in
        let next : (i * replicas + replicas) % u32 ≡ suc i * replicas =
          omega (arith, suc-mul i replicas, mul-le-mul_right replicas one, few) in
        let place : (query.offset + i * size) % u64 ≡ (a + i) * size =
          omega (arith, at, add-mul a i size, mul-le-mul_right size low, small) in
        let rest =
          put_leaves-run lefts rights (k + 2) (suc i) n
            (omega (arith, few, ap (λ t. t * replicas) count))
            (omega (arith, small, ap (λ t. t * size) shift)) in
        rw (good k, next, place, of, rest, number) refl

  length-run :
      (lefts rights : List Query) (i n : ℕ) → length (run id version lefts rights size i n) ≡ n
  length-run lefts rights i zero = refl
  length-run lefts rights i (suc n) = omega (arith, length-run lefts rights (suc i) n)

  back_of-run :
      (lefts rights : List Query) (i n : ℕ)
      → back_of (run id version lefts rights size i (suc n)) ≡ node_at id version size (i + n)
  back_of-run lefts rights i zero = ap (node_at id version size) (omega arith)
  back_of-run lefts rights i (suc n) =
      back_of-run lefts rights (suc i) n ∙ ap (node_at id version size) (omega arith)

-- A tree of `h` levels above `suc n` leaves has at most `h * suc n` nodes.
length-tree :
    (id version : ℕ) (lefts rights : List Query) (h size i n : ℕ)
    → length (tree id version lefts rights h size i n) ≤ h * suc n
unfolding tree
length-tree id version lefts rights zero size i n = omega arith
length-tree id version lefts rights (suc h) size i n =
    let ps = parents id version lefts rights size i n in
    let m = (i + n) / 2 - i / 2 in
    let above = length-tree id version lefts rights h (2 * size) (i / 2) m in
    let few : suc m ≤ suc n = omega arith in
    omega (
      arith,
      length-append ps (tree id version lefts rights h (2 * size) (i / 2) m),
      length-parents id version lefts rights size i n,
      above,
      mul-le-mul_right h few,
      mul_comm h (suc m),
      mul_comm h (suc n),
      suc-mul h (suc n),
    )

tall_pow : (d : ℕ) → 2 ^ 63 ≤ 2 ^ (63 + d)
tall_pow zero = omega arith
tall_pow (suc d) =
    let more : 63 + suc d ≡ suc (63 + d) = omega arith in
    omega (arith, tall_pow d, pow-succ' 2 (63 + d), ap (λ t. 2 ^ t) more)

-- A tree of at most 2^62 bytes has at most 62 levels.
few_levels : (h size : ℕ) → 0 < size → size * 2 ^ h ≤ 2 ^ 62 → h ≤ 62
few_levels h size pos small = elim (Bool-cases (leb h 62)) [
  | inl le ↦ ground arith
  | inr more ↦
      let split : 63 + (h - 63) ≡ h = ground arith in
      absurd (
        omega
          (arith, tall_pow (h - 63), ap (λ t. 2 ^ t) split, mul-le-mul_right (2 ^ h) pos, small))
]

-- A write of `suc n` whole pages from page `a` of its blob on, with no failed put, returns. It puts
-- each page with its own group of providers and its leaf, and then all ancestors of the leaves up to
-- the root, level by level, with the siblings found for the places outside the write. This for
-- trees of at most 2^62 bytes that hold the write, and fewer than 2^32 providers in all.
pub write_record_locations-tree :
    (c : Codec TreeNode) (lookup : Query → Buffer) (depth : ℕ) (alive : ℕ → Bool) (final : Bool)
    (reply : Reply) (providers : List Provider) (id v size a n h : ℕ) (e : Entry) (es : List Entry)
    (lefts rights : List Query)
    → let query = newest_key e es in
      let stable = reply.stable_root in
      let others = all_but_last (e ∷ es) in
      ((k : ℕ) → alive k ≡ true)
      → reply.intervals ≡ e ∷ es
      → query.offset ≡ a * size
      → 0 < size
      → size * 2 ^ h ≡ reply.root_size
      → reply.root_size ≤ 2 ^ 62
      → a + n < 2 ^ h
      → suc n * stable.replica_count < u32
      → left_siblings c lookup depth
          (left_leaf query stable.page_size)
          others
          reply.root_size
          stable
          (node_at id query.version size a)
        ≡ some lefts
      → right_siblings c lookup depth
          (right_leaf query stable.page_size)
          others
          reply.root_size
          stable
          (node_at id query.version size (a + n))
        ≡ some rights
      → write_record_locations c lookup depth alive final reply providers
          (page_keys id v size 0 (suc n))
        ≡ some (
          final,
          page_puts id v query.version size a stable.replica_count providers 0 (suc n)
              ++ map (λ (p, t). node_put p t) (tree id query.version lefts rights h size a n),
        )
unfolding write_record_locations put_inner
write_record_locations-tree c lookup depth alive final reply providers id v size a n h e es lefts
      rights good queue at pos tall small within few left right =
    let query = newest_key e es in
    let replicas = reply.stable_root.replica_count in
    let nodes = run id query.version lefts rights size a (suc n) in
    let puts = page_puts id v query.version size a replicas providers 0 (suc n) in
    let none_used : 0 * replicas ≡ 0 = omega arith in
    let none_before : a + 0 ≡ a = omega arith in
    let all : 0 + suc n ≡ suc n = omega arith in
    let groups : (0 + suc n) * replicas < u32 = omega (arith, ap (λ t. t * replicas) all, few) in
    let end_le : a + 0 + suc n ≤ 2 ^ h = omega (arith, within) in
    let run_end : (a + 0 + suc n) * size ≤ 2 ^ 62 =
      omega (arith, mul-le-mul_right size end_le, mul_comm size (2 ^ h), tall, small) in
    let leaves : put_leaves alive replicas providers query 0 0 (page_keys id v size 0 (suc n))
        ≡ (puts, nodes) =
      ap (λ j. put_leaves alive replicas providers query 0 j (page_keys id v size 0 (suc n)))
        (sym none_used)
      ∙ put_leaves-run id v query.version size a replicas providers alive good query at refl lefts
          rights 0 0 (suc n) groups run_end
      ∙ ap (λ t. (puts, run id query.version lefts rights size t (suc n))) none_before in
    let levels : h ≤ 62 = few_levels h size pos (omega (arith, tall, small)) in
    let fuel : length (tree id query.version lefts rights h size a n) + 2 ≤ 64 * length nodes + 2 =
      omega (
        arith,
        length-tree id query.version lefts rights h size a n,
        mul-le-mul_right (suc n) levels,
        length-run id v query.version size a replicas providers lefts rights a (suc n),
      ) in
    let inner =
      process-tree id query.version lefts rights alive good reply.root_size small h size a n
        (64 * length nodes + 2) (length puts) pos tall within fuel in
    let back = back_of-run id v query.version size a replicas providers lefts rights a n in
    rw (queue, leaves, back, left, right, inner) refl
