-- ===== src/RangeQuery/Levels.antt =====
-- The loop over the queue of nodes in `writeRecordLocations` (client/range_query.cpp), over all
-- levels of the tree.
use blobseer.RangeQuery.{process}
use blobseer.RangeQuery.Nodes.{parents_lem, put_all, put_all-some}
use blobseer.RangeQuery.Placement.{node_at}
use blobseer.RangeQuery.Tree.{run, pass, parents, tree}
use blobseer.Structures.{Query}
use native.Mathlib.Nat.{mul-le-mul_right, pow-succ', mul_assoc, mul_comm}
use blobseer.Prelude.{
  ℕ, zero, suc, ◌+◌, ◌*◌, ◌^◌, ◌/◌, ◌-◌, ◌%◌, ◌≤◌, ◌<◌, ◌≡◌, ◌≢◌, refl, sym, ap, ◌∙◌, Bool, true,
  some, List, [], ◌∷◌, length, length-append, arith, ◌==◌, inl, inr, Bool-cases,
}

pub two-pow_pos : (h : ℕ) → 1 ≤ 2 ^ h
two-pow_pos zero = omega arith
two-pow_pos (suc h) = omega (arith, two-pow_pos h, pow-succ' 2 h)

module _ (id version : ℕ) (lefts rights : List Query) where
  length-pass : (size j n : ℕ) → length (pass id version lefts rights size j n) ≡ (n + 1) / 2
  length-pass size j zero = refl
  length-pass size j (suc zero) = refl
  length-pass size j (suc (suc n)) = omega (arith, length-pass size (suc j) n)

  pub length-parents :
      (size i n : ℕ) → length (parents id version lefts rights size i n) ≡ suc ((i + n) / 2 - i / 2)
  length-parents size i n = elim (Bool-cases (i % 2 == 0)) [
    | inl even ↦ rw even (ground (arith, length-pass size (i / 2) (suc n)))
    | inr odd ↦ rw odd (ground (arith, length-pass size (suc (i / 2)) n))
  ]

  module _ (alive : ℕ → Bool) (good : (n : ℕ) → alive n ≡ true) (root_size : ℕ)
      (small : root_size ≤ 2 ^ 62) where
    at_root :
        (f k : ℕ) (q : Query)
        → q.size ≡ root_size
        → 2 ≤ f
        → process alive lefts rights root_size f k (q ∷ []) ≡ some []
    unfolding process
    at_root zero k q e le = absurd (omega arith)
    at_root (suc zero) k q e le = absurd (omega arith)
    at_root (suc (suc f)) k q e le =
        let test : (q.size == root_size) ≡ true = ground arith in rw (good k, test, process) refl

    -- With no failed put, the loop over a queue of `suc n` nodes that lie next to each other, `h`
    -- levels below a root of at most 2^62 bytes, ends after as many rounds as it puts nodes, and two
    -- more. It puts exactly the ancestors of the nodes, each once, level by level and from the
    -- left: the children of one are the two nodes of the queue at its two places, and where one of
    -- them is not in the queue, the sibling found for its place.
    pub process-tree :
        (h size i n f k : ℕ)
        → 0 < size
        → size * 2 ^ h ≡ root_size
        → i + n < 2 ^ h
        → length (tree id version lefts rights h size i n) + 2 ≤ f
        → process alive lefts rights root_size f k (run id version lefts rights size i (suc n))
          ≡ some (tree id version lefts rights h size i n)
    unfolding tree
    process-tree zero size i zero f k pos tall within fuel =
        at_root f k (node_at id version size i) (omega (arith, tall)) (omega arith)
    process-tree zero size i (suc n) f k pos tall within fuel = absurd (omega arith)
    process-tree (suc h) size i n f k pos tall within fuel =
        let ps = parents id version lefts rights size i n in
        let m = (i + n) / 2 - i / 2 in
        let above = tree id version lefts rights h (2 * size) (i / 2) m in
        let wide = doubled h size tall in
        let width : 2 ^ suc h ≡ 2 * 2 ^ h = pow-succ' 2 h in
        let rest : length ps + (f - length ps) ≡ f = omega (arith, fuel, length-append ps above) in
        ap
          (λ t.
            process alive lefts rights root_size t k (run id version lefts rights size i (suc n)))
          (sym rest)
        ∙ parents_lem alive good lefts rights root_size id version size pos (lower h size pos wide)
            n i (f - length ps) k (low_end h size i n tall within)
        ∙ ap
            (λ t. put_all ps (
              process alive lefts rights root_size (f - length ps) (k + length ps)
                (run id version lefts rights (2 * size) (i / 2) t)))
            (length-parents size i n)
        ∙ ap (put_all ps) (
            process-tree h (2 * size) (i / 2) m (f - length ps) (k + length ps) (omega (arith, pos))
              wide (omega (arith, within, width)) (omega (arith, fuel, length-append ps above)))
        ∙ put_all-some ps above
      where
        doubled : (h size : ℕ) → size * 2 ^ suc h ≡ root_size → (2 * size) * 2 ^ h ≡ root_size
        doubled h size tall =
            ap (λ t. t * 2 ^ h) (mul_comm 2 size)
            ∙ mul_assoc size 2 (2 ^ h)
            ∙ ap (λ t. size * t) (sym (pow-succ' 2 h))
            ∙ tall

        lower : (h size : ℕ) → 0 < size → (2 * size) * 2 ^ h ≡ root_size → size ≢ root_size
        lower h size pos wide e = absurd (
            omega (
              arith,
              e,
              wide,
              pos,
              mul_comm (2 * size) (2 ^ h),
              mul-le-mul_right (2 * size) (two-pow_pos h),
            ))

        low_end :
            (h size i n : ℕ)
            → size * 2 ^ suc h ≡ root_size
            → i + n < 2 ^ suc h
            → (i + suc n + 1) * size ≤ 2 ^ 63
        low_end h size i n tall within =
            let le : i + suc n + 1 ≤ 2 * 2 ^ suc h = omega (arith, within, two-pow_pos (suc h)) in
            omega (
              arith,
              mul-le-mul_right size le,
              mul_assoc 2 (2 ^ suc h) size,
              mul_comm (2 ^ suc h) size,
              tall,
              small,
            )
