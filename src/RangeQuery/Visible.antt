-- ===== src/RangeQuery/Visible.antt =====
-- Reading the part of a tree that a range needs (`read_callback` of client/range_query.cpp).
use native.Mathlib.Nat.{mul-div_cancel, add-mul, mul-le-mul_right, pow-succ'}
use blobseer.RangeQuery.{read_node}
use blobseer.RangeQuery.Reads.{ReadState, leaf_callback, visit, and_then, read_callback}
use blobseer.RangeQuery.Replicas.{RandomSelect, null_select, set_providers}
use blobseer.Rpc.{Buffer, Codec}
use blobseer.Structures.{Provider, Query, TreeNode, intersects}
use blobseer.Prelude.{
  ℕ, zero, suc, ◌+◌, ◌-◌, ◌*◌, ◌/◌, ◌%◌, ◌^◌, ◌≤◌, ◌<◌, ◌≡◌, refl, sym, ap, subst, ◌∙◌, true, false,
  Option, some, List, length, get_or, set_at, length-set_at, get_or-set_at, get_or-set_at_other,
  u32, u64, arith, ◌⊎◌, inl, inr, lt→ltb, ltb, ltb→lt, Bool-cases,
}

-- The pages of the range are `count` pages from number `first` on; `chosen` gives each page of the
-- blob its replicas.
module _ (c : Codec TreeNode) (lc : Codec (List Provider)) (lookup : Query → Buffer) (range : Query)
    (page_size first count : ℕ) (chosen : ℕ → RandomSelect) where
  -- A child at its place: outside the range and not read, or read and visible.
  abbrev pub Side : (Query → Type 0) → ℕ → ℕ → Query → Type 0
  Side P low high q =
      ((intersects q range ≡ false) × ((high ≤ first) ⊎ (first + count ≤ low)))
      ⊎ ((intersects q range ≡ true) × (q.offset ≡ low * page_size) × P q)

  -- The nodes below `q`, `h` levels high and from page `low` on, are stored as far as the range
  -- needs them, and so are the replicas of its pages.
  abbrev pub Visible : ℕ → ℕ → Query → Type 0
  Visible zero low q =
      (n : TreeNode) × (read_node c (lookup q) ≡ some n)
      × (n.is_leaf ≡ true)
      × (first ≤ low)
      × (low < first + count)
      × ((s : RandomSelect) → set_providers lc n.left (lookup n.left) s ≡ (true, chosen low))
  Visible (suc h) low q =
      (n : TreeNode) × (read_node c (lookup q) ≡ some n)
      × (n.is_leaf ≡ false)
      × Side (Visible h low) low (low + 2 ^ h) n.left
      × Side (Visible h (low + 2 ^ h)) (low + 2 ^ h) (low + 2 ^ h + 2 ^ h) n.right

  -- The pages between two numbers have got their replicas, the others are as before.
  abbrev pub SetBetween : ℕ → ℕ → List RandomSelect → List RandomSelect → Type 0
  SetBetween low high leaves leaves' =
      (length leaves' ≡ length leaves)
      × ((j : ℕ)
          → j < count
          → low ≤ first + j
          → first + j < high
          → get_or leaves' j null_select ≡ chosen (first + j))
      × ((j : ℕ)
          → j < count
          → (first + j < low) ⊎ (high ≤ first + j)
          → get_or leaves' j null_select ≡ get_or leaves j null_select)

  abbrev pub Sets : ℕ → ℕ → List RandomSelect → Option ReadState → Type 0
  Sets low high leaves o =
      (leaves' : List RandomSelect) × (o ≡ some (true, leaves'))
      × SetBetween low high leaves leaves'

  outside :
      (low high : ℕ) (leaves : List RandomSelect)
      → (high ≤ first) ⊎ (first + count ≤ low)
      → SetBetween low high leaves leaves
  outside low high leaves away = (refl, (λ j lt ge le. absurd (ground arith)), λ j lt o. refl)

  joined :
      (low mid high : ℕ) (l m r : List RandomSelect)
      → low ≤ mid
      → mid ≤ high
      → SetBetween low mid l m
      → SetBetween mid high m r
      → SetBetween low high l r
  joined low mid high l m r le le' h h' = (
    h'.0 ∙ h.0,
    (λ j lt ge below. elim (Bool-cases (ltb (first + j) mid)) [
      | inl left ↦
          h'.2 j lt (inl (ltb→lt (first + j) mid left)) ∙ h.1 j lt ge (ltb→lt (first + j) mid left)
      | inr right ↦ h'.1 j lt (ground arith) below
    ]),
    λ j lt away. h'.2 j lt (ground arith) ∙ h.2 j lt (ground arith),
  )

  and_then-Sets :
      (low mid high : ℕ) (leaves : List RandomSelect) (o : Option ReadState)
      (k : ReadState → Option ReadState)
      → low ≤ mid
      → mid ≤ high
      → Sets low mid leaves o
      → ((leaves' : List RandomSelect)
          → length leaves' ≡ length leaves
          → Sets mid high leaves' (k (true, leaves')))
      → Sets low high leaves (and_then o k)
  and_then-Sets low mid high leaves o k le le' (m, e, h) f =
      let (r, e', h') = f m h.0 in
      (r, ap (λ t. and_then t k) e ∙ e', joined low mid high leaves m r le le' h h')

  module _ (pos : 0 < page_size) (at : range.offset ≡ first * page_size) (few : count < u32)
      (small : (first + count) * page_size ≤ 2 ^ 62) where
    place :
        (low : ℕ)
        → first ≤ low
        → low < first + count
        → (low * page_size + u64 - range.offset) % u64 / page_size % u32 ≡ low - first
    place low ge lt =
        let split : low ≡ first + (low - first) = omega (arith, ge) in
        let index : (low * page_size + u64 - range.offset) % u64 ≡ (low - first) * page_size =
          omega (
            arith,
            at,
            ap (λ t. t * page_size) split,
            add-mul first (low - first) page_size,
            mul-le-mul_right page_size (le_of_lt low lt),
            small,
          ) in
        rw (index, mul-div_cancel (low - first) pos) (omega (arith, few, lt))
      where
        le_of_lt : (low : ℕ) → low < first + count → low ≤ first + count
        le_of_lt low lt = omega (arith, lt)

    leaf_callback-Sets :
        (low : ℕ) (leaves : List RandomSelect) (key : Query) (val : Buffer)
        → first ≤ low
        → low < first + count
        → length leaves ≡ count
        → ((s : RandomSelect) → set_providers lc key val s ≡ (true, chosen low))
        → Sets low (low + 1) leaves (leaf_callback lc key (low - first) val (true, leaves))
    unfolding leaf_callback
    leaf_callback-Sets low leaves key val ge lt len found =
        let inside : low - first < length leaves = omega (arith, len, lt) in
        let back : first + (low - first) ≡ low = omega (arith, ge) in
        (
          set_at (low - first) (chosen low) leaves,
          rw
              (
                found (get_or leaves (low - first) null_select),
                lt→ltb (low - first) (length leaves) inside,
              )
              refl,
          (
            length-set_at (low - first) (chosen low) leaves,
            (λ j below from to.
                let same : low - first ≡ j = omega (arith, from, to) in
                let same' : low ≡ first + j = omega (arith, from, to) in
                ap (λ t. get_or (set_at (low - first) (chosen low) leaves) t null_select) (sym same)
                ∙ get_or-set_at (low - first) (chosen low) null_select leaves inside
                ∙ ap chosen same'),
            λ j below away.
                get_or-set_at_other (low - first) j (chosen low) null_select leaves
                  (λ e. ground arith),
          ),
        )

    visit-Sets :
        (P : Query → Type 0) (low high : ℕ) (q : Query)
        (read : ℕ → Buffer → ReadState → Option ReadState) (leaves : List RandomSelect)
        → Side P low high q
        → (P q → Sets low high leaves (read (low * page_size) (lookup q) (true, leaves)))
        → Sets low high leaves (visit range read (lookup q) q (true, leaves))
    visit-Sets P low high q read leaves (inl (off, away)) f =
        rw (off, visit) (leaves, refl, outside low high leaves away)
    visit-Sets P low high q read leaves (inr (on, start, p)) f =
        rw (on, visit)
          (subst (λ t. Sets low high leaves (read t (lookup q) (true, leaves))) (sym start) (f p))

    -- Reading a subtree.
    pub read_callback-Sets :
        (h fuel low : ℕ) (q : Query) (leaves : List RandomSelect)
        → h < fuel
        → length leaves ≡ count
        → Visible h low q
        → Sets low (low + 2 ^ h) leaves (
            read_callback c lc lookup range page_size fuel
              (low * page_size)
              (lookup q)
              (true, leaves))
    unfolding read_callback
    read_callback-Sets h zero low q leaves lt len v = absurd (omega arith)
    read_callback-Sets zero (suc fuel) low q leaves lt len (n, e, leaf, ge, below, found) =
        rw (e, read_callback, leaf, place low ge below)
          (leaf_callback-Sets low leaves n.left (lookup n.left) ge below len found)
    read_callback-Sets (suc h) (suc fuel) low q leaves lt len (n, e, inner, l, r) =
        let mid = low + 2 ^ h in
        let width : low + 2 ^ suc h ≡ mid + 2 ^ h = omega (arith, pow-succ' 2 h) in
        rw (e, read_callback, inner, width)
          (and_then-Sets low mid (mid + 2 ^ h) leaves
            (visit range (read_callback c lc lookup range page_size fuel) (lookup n.left) n.left
              (true, leaves))
            (visit range (read_callback c lc lookup range page_size fuel) (lookup n.right) n.right)
            (omega arith) (omega arith)
            (visit-Sets (Visible h low) low mid n.left
              (read_callback c lc lookup range page_size fuel) leaves l
              (read_callback-Sets h fuel low n.left leaves (omega arith) len))
            (λ leaves' same.
              visit-Sets (Visible h mid) mid (mid + 2 ^ h) n.right
                (read_callback c lc lookup range page_size fuel) leaves' r
                (read_callback-Sets h fuel mid n.right leaves' (omega arith) (same ∙ len))))
