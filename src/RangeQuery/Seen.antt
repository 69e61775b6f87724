-- ===== src/RangeQuery/Seen.antt =====
-- The nodes that a write puts (client/range_query.cpp), as a reader of its range sees them: one level
-- of the tree.
use native.Mathlib.Nat.{suc-mul, add-mul, mul_assoc, mul_comm, mul-le-mul_right, pow-succ'}
use blobseer.RangeQuery.{read_node}
use blobseer.RangeQuery.Placement.{node_at}
use blobseer.RangeQuery.Replicas.{RandomSelect, set_providers}
use blobseer.RangeQuery.Served.{ServesNode, Child, parents-Stored}
use blobseer.RangeQuery.Tree.{inner, right_brother, left_brother, parents}
use blobseer.RangeQuery.Visible.{Side, Visible}
use blobseer.Rpc.{Buffer, Codec, good, get_value, get_value-encode}
use blobseer.Structures.{Provider, Query, TreeNode, intersects, search_list, null_query}
use blobseer.Prelude.{
  ℕ, suc, ◌+◌, ◌-◌, ◌*◌, ◌/◌, ◌%◌, ◌^◌, ◌≤◌, ◌<◌, ◌≡◌, refl, sym, ap, subst, ◌∙◌, true, false, some,
  List, [], ◌∷◌, length, All, u64, arith, ◌⊎◌, inl, inr, ◌==◌, ◌&&◌, Bool-cases,
}

-- A value that was put is read back, as a node and as a list of providers.
pub read_node-encode :
    (c : Codec TreeNode) (n : TreeNode) (b : Buffer) → b ≡ c.encode n → read_node c b ≡ some n
unfolding read_node
read_node-encode c n b e =
    go b (omega (arith, ap length e, c.encode_pos n)) (ap (get_value c) e ∙ get_value-encode c n)
  where
    go : (b : Buffer) → 0 < length b → get_value c b ≡ good n → read_node c b ≡ some n
    go [] pos e = elim pos [ ]
    go (x ∷ b) pos e = rw e refl

pub set_providers-encode :
    (c : Codec (List Provider)) (l : List Provider) (key : Query) (b : Buffer) (s : RandomSelect)
    → b ≡ c.encode l
    → set_providers c key b s ≡ (true, record { providers = l; page_key = key })
unfolding set_providers
set_providers-encode c l key b s e =
    go b (omega (arith, ap length e, c.encode_pos l)) (ap (get_value c) e ∙ get_value-encode c l)
  where
    go :
        (b : Buffer)
        → 0 < length b
        → get_value c b ≡ good l
        → set_providers c key b s ≡ (true, record { providers = l; page_key = key })
    go [] pos e = elim pos [ ]
    go (x ∷ b) pos e = rw e refl

-- A sibling found for a place stands there, or is the null query.
search_list-place :
    (l : List Query) (offset size : ℕ)
    → (search_list l offset size ≡ null_query)
      ⊎ (((search_list l offset size).offset ≡ offset) × ((search_list l offset size).size ≡ size))
unfolding search_list
search_list-place [] offset size = inl refl
search_list-place (q ∷ qs) offset size = elim (Bool-cases (q.offset == offset && q.size == size)) [
  | inl e ↦ rw e (inr (ground arith, ground arith))
  | inr e ↦ rw e (search_list-place qs offset size)
]

null-intersects : (range : Query) → intersects null_query range ≡ false
unfolding intersects
null-intersects range = ground arith

-- A query that ends before a range, or starts behind it, does not meet it.
apart :
    (q range : Query)
    → 0 < range.size
    → q.offset + q.size ≤ 2 ^ 63
    → range.offset + range.size ≤ 2 ^ 63
    → (q.offset + q.size ≤ range.offset) ⊎ (range.offset + range.size ≤ q.offset)
    → intersects q range ≡ false
unfolding intersects
apart q range some_bytes hq hr away = ground arith

meets :
    (q range : Query)
    → q.offset + q.size ≤ 2 ^ 63
    → range.offset + range.size ≤ 2 ^ 63
    → q.offset < range.offset + range.size
    → range.offset < q.offset + q.size
    → intersects q range ≡ true
unfolding intersects
meets q range hq hr before behind = ground arith

module _ (c : Codec TreeNode) (lc : Codec (List Provider)) (lookup : Query → Buffer)
    (id version : ℕ) (lefts rights : List Query) (range : Query) (size a n : ℕ)
    (chosen : ℕ → RandomSelect) (pos : 0 < size) (at : range.offset ≡ a * size)
    (long : range.size ≡ suc n * size) where
  abbrev pub See : ℕ → ℕ → Query → Type 0
  See = Visible c lc lookup range size a (suc n) chosen

  -- The nodes of a level that the write has, and that its pages lie below exactly these.
  pub record Level (k sz i m : ℕ) : Type 0 where
    pub scale : sz ≡ 2 ^ k * size
    pub low : i * 2 ^ k ≤ a
    pub low' : a < i * 2 ^ k + 2 ^ k
    pub high : (i + m) * 2 ^ k ≤ a + n
    pub high' : a + n < (i + m) * 2 ^ k + 2 ^ k

  module _ (k sz i m : ℕ) (l : Level k sz i m)
      (small : ((i + m) * 2 ^ k + 2 ^ k + 2 ^ k) * size ≤ 2 ^ 63) where
    place : (x : ℕ) → x * sz ≡ x * 2 ^ k * size
    place x = ap (λ t. x * t) l.scale ∙ sym (mul_assoc x (2 ^ k) size)

    range_end : range.offset + range.size ≡ (a + suc n) * size
    range_end = omega (arith, at, long, add-mul a (suc n) size)

    -- The bytes of node `x`.
    node_end : (x : ℕ) → x * sz + sz ≡ (x * 2 ^ k + 2 ^ k) * size
    node_end x = omega (arith, place x, l.scale, add-mul (x * 2 ^ k) (2 ^ k) size)

    scaled : {x y : ℕ} → x ≤ y → x * size ≤ y * size
    scaled le = mul-le-mul_right size le

    node_small : (x : ℕ) → x ≤ suc (i + m) → x * sz + sz ≤ 2 ^ 63
    node_small x le =
        let next : suc (i + m) * 2 ^ k ≡ (i + m) * 2 ^ k + 2 ^ k = suc-mul (i + m) (2 ^ k) in
        let inside : x * 2 ^ k + 2 ^ k ≤ (i + m) * 2 ^ k + 2 ^ k + 2 ^ k =
          omega (arith, next, mul-le-mul_right (2 ^ k) le) in
        omega (arith, node_end x, scaled inside, small)

    range_small : range.offset + range.size ≤ 2 ^ 63
    range_small =
        let inside : a + suc n ≤ (i + m) * 2 ^ k + 2 ^ k + 2 ^ k = omega (arith, l.high') in
        omega (arith, range_end, scaled inside, small)

    -- A node that the write has.
    own : (x : ℕ) → i ≤ x → x ≤ i + m → intersects (node_at id version sz x) range ≡ true
    own x from to =
        let last : x * 2 ^ k ≤ (i + m) * 2 ^ k = mul-le-mul_right (2 ^ k) to in
        let first : i * 2 ^ k ≤ x * 2 ^ k = mul-le-mul_right (2 ^ k) from in
        let before : suc (x * 2 ^ k) ≤ a + suc n = omega (arith, last, l.high) in
        let behind : suc a ≤ x * 2 ^ k + 2 ^ k = omega (arith, first, l.low') in
        meets (node_at id version sz x) range (node_small x (omega (arith, to))) range_small
          (omega (arith, place x, range_end, scaled before, suc-mul (x * 2 ^ k) size, pos))
          (omega (arith, at, node_end x, scaled behind, suc-mul a size, pos))

    -- A sibling on the left, or on the right.
    left_apart :
        (x : ℕ) → suc x ≡ i → intersects (left_brother id version lefts rights sz i) range ≡ false
    left_apart x e =
        let q = left_brother id version lefts rights sz i in
        let ends : suc x * sz ≡ x * sz + sz = suc-mul x sz in
        let fits = node_small x (omega (arith, e)) in
        let spot : (i * sz + u64 - sz) % u64 ≡ x * sz =
          omega (arith, ends, ap (λ t. t * sz) e, fits) in
        let wide : suc x * 2 ^ k ≡ x * 2 ^ k + 2 ^ k = suc-mul x (2 ^ k) in
        let inside : x * 2 ^ k + 2 ^ k ≤ a = omega (arith, wide, ap (λ t. t * 2 ^ k) e, l.low) in
        elim (search_list-place lefts ((i * sz + u64 - sz) % u64) sz) [
          | inl none ↦ ap (λ t. intersects t range) none ∙ null-intersects range
          | inr (offset, size') ↦
              apart q range (omega (arith, long, suc-mul n size, pos))
                (omega (arith, offset, size', spot, fits)) range_small
                (inl (omega (arith, offset, size', spot, node_end x, at, scaled inside)))
        ]

    right_apart : intersects (right_brother id version lefts rights sz (i + m)) range ≡ false
    right_apart =
        let q = right_brother id version lefts rights sz (i + m) in
        let ends : suc (i + m) * sz ≡ (i + m) * sz + sz = suc-mul (i + m) sz in
        let fits = node_small (suc (i + m)) (omega arith) in
        let spot : ((i + m) * sz + sz) % u64 ≡ suc (i + m) * sz = omega (arith, ends, fits) in
        let inside : a + suc n ≤ (i + m) * 2 ^ k + 2 ^ k = omega (arith, l.high') in
        elim (search_list-place rights (((i + m) * sz + sz) % u64) sz) [
          | inl none ↦ ap (λ t. intersects t range) none ∙ null-intersects range
          | inr (offset, size') ↦
              apart q range (omega (arith, long, suc-mul n size, pos))
                (omega (arith, offset, size', spot, fits)) range_small
                (inr
                  (omega (arith, offset, spot, ends, node_end (i + m), range_end, scaled inside)))
        ]

    -- Every child is seen, or outside the range.
    Child-Side :
        ((x : ℕ) → i ≤ x → x ≤ i + m → See k (x * 2 ^ k) (node_at id version sz x))
        → (x : ℕ) (q : Query) → Child c lc lookup id version lefts rights sz i m x q
        → Side c lc lookup range size a
            (suc n)
            chosen
            (See k (x * 2 ^ k))
            (x * 2 ^ k)
            (x * 2 ^ k + 2 ^ k)
            q
    Child-Side see x q (inl (from, to, e)) =
        subst
          (λ t.
            Side c lc lookup range size a (suc n) chosen (See k (x * 2 ^ k)) (x * 2 ^ k)
              (x * 2 ^ k + 2 ^ k) t)
          (sym e) (inr (own x from to, place x, see x from to))
    Child-Side see x q (inr (inl (e, same))) =
        let wide : suc x * 2 ^ k ≡ x * 2 ^ k + 2 ^ k = suc-mul x (2 ^ k) in
        inl (
          ap (λ t. intersects t range) same ∙ left_apart x e,
          inl (omega (arith, wide, ap (λ t. t * 2 ^ k) e, l.low)),
        )
    Child-Side see x q (inr (inr (e, same))) =
        let wide : suc (i + m) * 2 ^ k ≡ (i + m) * 2 ^ k + 2 ^ k = suc-mul (i + m) (2 ^ k) in
        inl (
          ap (λ t. intersects t range) same ∙ right_apart,
          inr (omega (arith, wide, ap (λ t. t * 2 ^ k) e, l.high')),
        )

    -- The parents of seen nodes are seen.
    pub parent_See :
        ((x : ℕ) → i ≤ x → x ≤ i + m → See k (x * 2 ^ k) (node_at id version sz x))
        → All (ServesNode c lc lookup) (parents id version lefts rights sz i m)
        → (j : ℕ) → i / 2 ≤ j
        → j ≤ (i + m) / 2
        → See (suc k) (j * 2 ^ suc k) (node_at id version (2 * sz) j)
    parent_See see all j from to =
        let (x, y, stored, first, second) =
          parents-Stored c lc lookup id version lefts rights sz i m j all from to in
        let next : 2 * j + 1 ≡ suc (2 * j) = omega arith in
        let even : j * 2 ^ suc k ≡ 2 * j * 2 ^ k =
          ap (λ t. j * t) (pow-succ' 2 k)
          ∙ sym (mul_assoc j 2 (2 ^ k))
          ∙ ap (λ t. t * 2 ^ k) (mul_comm j 2) in
        let odd : (2 * j + 1) * 2 ^ k ≡ 2 * j * 2 ^ k + 2 ^ k =
          ap (λ t. t * 2 ^ k) next ∙ suc-mul (2 * j) (2 ^ k) in
        rw even (
          inner x y,
          read_node-encode c (inner x y) (lookup (node_at id version (2 * sz) j)) stored,
          refl,
          Child-Side see (2 * j) x first,
          rw odd at (Child-Side see (2 * j + 1) y second),
        )
