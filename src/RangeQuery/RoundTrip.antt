-- ===== src/RangeQuery/RoundTrip.antt =====
-- Reading back what a write put (client/range_query.cpp): from the leaves to the root.
use native.Mathlib.Nat.{suc-mul, mul_assoc, mul_comm, mul-le-mul_right, pow-succ'}
use blobseer.RangeQuery.Leaves.{page_puts}
use blobseer.RangeQuery.Levels.{two-pow_pos}
use blobseer.RangeQuery.Placement.{node_at}
use blobseer.RangeQuery.Replicas.{RandomSelect}
use blobseer.RangeQuery.Records.{leaf}
use blobseer.RangeQuery.Seen.{See, Level, parent_See, read_node-encode, set_providers-encode}
use blobseer.RangeQuery.Served.{Serves, ServesNode}
use blobseer.RangeQuery.Tree.{parents, tree}
use blobseer.Rpc.{Buffer, Codec}
use blobseer.Structures.{Provider, Query, TreeNode}
use blobseer.Prelude.{
  ℕ, zero, suc, ◌+◌, ◌-◌, ◌*◌, ◌/◌, ◌^◌, ◌≤◌, ◌<◌, ◌≡◌, refl, sym, ap, subst, ◌∙◌, List, take, drop,
  All, All-split, Bool-cases, ltb, inl, inr, arith,
}

module _ (c : Codec TreeNode) (lc : Codec (List Provider)) (lookup : Query → Buffer)
    (id version : ℕ) (lefts rights : List Query) (range : Query) (size a n : ℕ)
    (chosen : ℕ → RandomSelect) (pos : 0 < size) (at : range.offset ≡ a * size)
    (long : range.size ≡ suc n * size) where
  abbrev IsSeen : ℕ → ℕ → Query → Type 0
  IsSeen = See c lc lookup id version lefts rights range size a n chosen pos at long

  abbrev AtLevel : ℕ → ℕ → ℕ → ℕ → Type 0
  AtLevel = Level c lc lookup id version lefts rights range size a n chosen pos at long

  -- The parent of the node that holds a page holds it too.
  halved :
      (k x v : ℕ)
      → x * 2 ^ k ≤ v
      → v < x * 2 ^ k + 2 ^ k
      → (x / 2 * 2 ^ suc k ≤ v) × (v < x / 2 * 2 ^ suc k + 2 ^ suc k)
  halved k x v low high =
      let width = pow-succ' 2 k in
      let start : x / 2 * 2 ^ suc k ≡ 2 * (x / 2) * 2 ^ k =
        ap (λ t. x / 2 * t) width
        ∙ sym (mul_assoc (x / 2) 2 (2 ^ k))
        ∙ ap (λ t. t * 2 ^ k) (mul_comm (x / 2) 2) in
      let below : 2 * (x / 2) ≤ x = omega arith in
      let above : x ≤ suc (2 * (x / 2)) = omega arith in
      (
        omega (arith, start, mul-le-mul_right (2 ^ k) below, low),
        omega (
          arith,
          start,
          width,
          mul-le-mul_right (2 ^ k) above,
          suc-mul (2 * (x / 2)) (2 ^ k),
          high,
        ),
      )

  -- The level above.
  up : (k sz i m : ℕ) → AtLevel k sz i m → AtLevel (suc k) (2 * sz) (i / 2) ((i + m) / 2 - i / 2)
  up k sz i m l =
      let first = halved k i a l.low l.low' in
      let last = halved k (i + m) (a + n) l.high l.high' in
      let sum : i / 2 + ((i + m) / 2 - i / 2) ≡ (i + m) / 2 = omega arith in
      record {
        scale =
            ap (λ t. 2 * t) l.scale
            ∙ sym (mul_assoc 2 (2 ^ k) size)
            ∙ ap (λ t. t * size) (sym (pow-succ' 2 k));
        low = first.0;
        low' = first.1;
        high = rw sum last.0;
        high' = rw sum last.1;
      }

  within_root :
      (h k i m : ℕ)
      → 2 ^ k * 2 ^ suc h * size ≤ 2 ^ 62
      → i + m < 2 ^ suc h
      → ((i + m) * 2 ^ k + 2 ^ k + 2 ^ k) * size ≤ 2 ^ 63
  within_root h k i m small within =
      let pages = 2 ^ k * 2 ^ suc h in
      let one = mul-le-mul_right (2 ^ k) (two-pow_pos (suc h)) in
      let inside : (i + m) * 2 ^ k + 2 ^ k + 2 ^ k ≤ 2 * pages = omega (
        arith,
        mul-le-mul_right (2 ^ k) within,
        suc-mul (i + m) (2 ^ k),
        mul_comm (2 ^ k) (2 ^ suc h),
        one,
      ) in
      omega (arith, mul-le-mul_right size inside, mul_assoc 2 pages size, small)

  pub climb :
      (h k sz i m : ℕ)
      → AtLevel k sz i m
      → 2 ^ k * 2 ^ h * size ≤ 2 ^ 62
      → i + m < 2 ^ h
      → All (ServesNode c lc lookup) (tree id version lefts rights h sz i m)
      → ((x : ℕ) → i ≤ x → x ≤ i + m → IsSeen k (x * 2 ^ k) (node_at id version sz x))
      → IsSeen (h + k) 0 (node_at id version (sz * 2 ^ h) 0)
  unfolding tree
  climb zero k sz i m l small within all see =
      let top : 0 + k ≡ k = omega arith in
      let whole : sz * 2 ^ 0 ≡ sz = omega arith in
      let start : 0 * 2 ^ k ≡ 0 = omega arith in
      rw (top, whole)
        (subst (λ t. IsSeen k t (node_at id version sz 0)) start
          (see 0 (omega (arith, within)) (omega arith)))
  climb (suc h) k sz i m l small within all see =
      let p = parents id version lefts rights sz i m in
      let m' = (i + m) / 2 - i / 2 in
      let sum : i / 2 + m' ≡ (i + m) / 2 = omega arith in
      let width : 2 ^ suc h ≡ 2 * 2 ^ h = pow-succ' 2 h in
      let split : (All (ServesNode c lc lookup) p
          × All (ServesNode c lc lookup) (tree id version lefts rights h (2 * sz) (i / 2) m')) =
        All-split (ServesNode c lc lookup) p (tree id version lefts rights h (2 * sz) (i / 2) m')
          all in
      let same : 2 ^ suc k * 2 ^ h ≡ 2 ^ k * 2 ^ suc h =
        ap (λ t. t * 2 ^ h) (pow-succ' 2 k ∙ mul_comm 2 (2 ^ k))
        ∙ mul_assoc (2 ^ k) 2 (2 ^ h)
        ∙ ap (λ t. 2 ^ k * t) (sym width) in
      let higher : suc h + k ≡ h + suc k = omega arith in
      let size' : sz * 2 ^ suc h ≡ 2 * sz * 2 ^ h =
        ap (λ t. sz * t) width
        ∙ sym (mul_assoc sz 2 (2 ^ h))
        ∙ ap (λ t. t * 2 ^ h) (mul_comm sz 2) in
      let room = within_root h k i m small within in
      rw (higher, size')
        (climb h (suc k) (2 * sz) (i / 2) m' (up k sz i m l)
          (omega (arith, ap (λ t. t * size) same, small)) (omega (arith, within, width, sum))
          split.1
          (λ x from to.
            parent_See c lc lookup id version lefts rights range size a n chosen pos at long k sz i
              m l room see split.0 x from (omega (arith, sum, to))))

-- The pages and the leaves.
module _ (c : Codec TreeNode) (lc : Codec (List Provider)) (lookup : Query → Buffer)
    (id v version size a replicas : ℕ) (providers : List Provider) where
  -- The replicas of a page of the write, by its number in the blob.
  abbrev pub chosen : ℕ → RandomSelect
  chosen p = record {
    providers = take replicas (drop ((p - a) * replicas) providers);
    page_key = record { id = id; version = v; offset = p - a; size = size };
  }

  page_puts-served :
      (i n j : ℕ)
      → All (Serves c lc lookup) (page_puts id v version size a replicas providers i n)
      → i ≤ j
      → j < i + n
      → (lookup (record { id = id; version = v; offset = j; size = size })
          ≡ lc.encode (take replicas (drop (j * replicas) providers)))
        × (lookup (node_at id version size (a + j))
            ≡ c.encode (leaf (record { id = id; version = v; offset = j; size = size })))
  page_puts-served i zero j all low high = absurd (omega arith)
  page_puts-served i (suc n) j all low high = elim (Bool-cases (ltb i j)) [
    | inl later ↦ page_puts-served (suc i) n j all.1.1 (ground arith) (omega arith)
    | inr now ↦
        let same : i ≡ j = ground arith in
        subst
          (λ t.
            (lookup (record { id = id; version = v; offset = t; size = size })
              ≡ lc.encode (take replicas (drop (t * replicas) providers)))
            × (lookup (node_at id version size (a + t))
                ≡ c.encode (leaf (record { id = id; version = v; offset = t; size = size }))))
          same (all.0, all.1.0)
  ]

  -- The leaf of a page of the write is seen.
  pub leaf_See :
      (lefts rights : List Query) (range : Query) (n : ℕ) (pos : 0 < size)
      (at : range.offset ≡ a * size) (long : range.size ≡ suc n * size) (x : ℕ)
      → All (Serves c lc lookup) (page_puts id v version size a replicas providers 0 (suc n))
      → a ≤ x
      → x ≤ a + n
      → See c lc lookup id version lefts rights range size a n chosen pos at long 0 x
          (node_at id version size x)
  leaf_See lefts rights range n pos at long x all low high =
      let key : Query = record { id = id; version = v; offset = x - a; size = size } in
      let (page, node) =
        page_puts-served 0 (suc n) (x - a) all (omega arith) (omega (arith, low, high)) in
      let back : a + (x - a) ≡ x = omega (arith, low) in
      (
        leaf key,
        read_node-encode c (leaf key) (lookup (node_at id version size x))
            (ap (λ t. lookup (node_at id version size t)) (sym back) ∙ node),
        refl,
        low,
        omega (arith, high),
        λ s.
            set_providers-encode lc (take replicas (drop ((x - a) * replicas) providers)) key
              (lookup key) s page,
      )
