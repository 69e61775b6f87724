-- ===== src/RangeQuery/Served.antt =====
-- The children of the nodes that a write puts (`writeRecordLocations` of client/range_query.cpp), as
-- a reader finds them in the hash table.
use blobseer.RangeQuery.{Put, page_put, node_put}
use blobseer.RangeQuery.Placement.{node_at}
use blobseer.RangeQuery.Tree.{inner, right_brother, left_brother, pass, parents}
use blobseer.Rpc.{Buffer, Codec}
use blobseer.Structures.{Provider, Query, TreeNode}
use blobseer.Prelude.{
  ℕ, zero, suc, ◌+◌, ◌*◌, ◌/◌, ◌%◌, ◌≤◌, ◌<◌, ◌≡◌, refl, ap, subst, List, All, arith, ◌⊎◌, inl, inr,
  ◌==◌, Bool-cases, ltb,
}

module _ (c : Codec TreeNode) (lc : Codec (List Provider)) (lookup : Query → Buffer) where
  -- A get of the key gives back the value that was put.
  abbrev pub Serves : Put → Type 0
  Serves (page_put q l) = lookup q ≡ lc.encode l
  Serves (node_put q n) = lookup q ≡ c.encode n

  abbrev pub ServesNode : Query × TreeNode → Type 0
  ServesNode (q, n) = lookup q ≡ c.encode n

  module _ (id version : ℕ) (lefts rights : List Query) (size i n : ℕ) where
    -- The node with number `x` of a level, next to or among the nodes `i` to `i + n` of the write.
    abbrev pub Child : ℕ → Query → Type 0
    Child x q =
        ((i ≤ x) × (x ≤ i + n) × (q ≡ node_at id version size x))
        ⊎ (((suc x ≡ i) × (q ≡ left_brother id version lefts rights size i))
            ⊎ ((x ≡ suc (i + n)) × (q ≡ right_brother id version lefts rights size (i + n))))

    -- A parent is stored with its two children.
    abbrev pub Stored : ℕ → Type 0
    Stored j =
        (l r : Query) × (lookup (node_at id version (2 * size) j) ≡ c.encode (inner l r))
        × Child (2 * j) l
        × Child (2 * j + 1) r

  module _ (id version : ℕ) (lefts rights : List Query) (size : ℕ) where
    -- The parents of the nodes from number `2 * p` on; the write has them up to `i + n`.
    pass-Stored :
        (i n p m j : ℕ)
        → All ServesNode (pass id version lefts rights size p m)
        → i ≤ 2 * p
        → 2 * p + m ≡ suc (i + n)
        → p ≤ j
        → 2 * j < 2 * p + m
        → Stored id version lefts rights size i n j
    pass-Stored i n p zero j all low high from to = absurd (omega arith)
    pass-Stored i n p (suc zero) j all low high from to =
        let same : p ≡ j = omega arith in
        let last : 2 * p ≡ i + n = omega arith in
        subst (Stored id version lefts rights size i n) same (
          node_at id version size (2 * p),
          right_brother id version lefts rights size (2 * p),
          all.0,
          inl (omega arith, omega arith, refl),
          inr (inr (omega arith, ap (right_brother id version lefts rights size) last)),
        )
    pass-Stored i n p (suc (suc m)) j all low high from to = elim (Bool-cases (ltb p j)) [
      | inl later ↦
          pass-Stored i n (suc p) m j all.1 (omega arith) (omega arith) (ground arith) (omega arith)
      | inr now ↦
          let same : p ≡ j = ground arith in
          subst (Stored id version lefts rights size i n) same (
            node_at id version size (2 * p),
            node_at id version size (2 * p + 1),
            all.0,
            inl (omega arith, omega arith, refl),
            inl (omega arith, omega arith, refl),
          )
    ]

    pub parents-Stored :
        (i n j : ℕ)
        → All ServesNode (parents id version lefts rights size i n)
        → i / 2 ≤ j
        → j ≤ (i + n) / 2
        → Stored id version lefts rights size i n j
    parents-Stored i n j all from to = elim (Bool-cases (i % 2 == 0)) [
      | inl even ↦
          pass-Stored i n (i / 2) (suc n) j (rw even at all) (ground arith) (ground arith) from
            (ground arith)
      | inr odd ↦
          let all' = rw odd at all in
          elim (Bool-cases (ltb (i / 2) j)) [
            | inl later ↦
                pass-Stored i n (suc (i / 2)) n j all'.1 (ground arith) (ground arith)
                  (ground arith) (ground arith)
            | inr now ↦
                let same : i / 2 ≡ j = ground arith in
                let start : 2 * (i / 2) + 1 ≡ i = ground arith in
                subst (Stored id version lefts rights size i n) same (
                  left_brother id version lefts rights size (2 * (i / 2) + 1),
                  node_at id version size (2 * (i / 2) + 1),
                  all'.0,
                  inr (
                      inl (
                        omega (arith, start),
                        ap (left_brother id version lefts rights size) start,
                      )),
                  inl (omega (arith, start), omega (arith, start), refl),
                )
          ]
    ]
