-- ===== src/RangeQuery/Nodes.antt =====
-- The loop over the queue of nodes in `writeRecordLocations` (client/range_query.cpp), over one level
-- of the tree.
use mathlib.Core.List.{append_assoc, append-nil}
use blobseer.RangeQuery.{process, put_first, children_of}
use blobseer.RangeQuery.Placement.{node_at, get_parent-even, get_parent-odd}
use blobseer.RangeQuery.Siblings.{children_of_pair, children_of_last, children_of_first}
use blobseer.RangeQuery.Tree.{run, pass, pass_odd, parents, inner, right_brother, left_brother}
use blobseer.Structures.{Query, TreeNode, get_parent}
use native.Mathlib.Nat.{mul-le-mul_right}
use blobseer.Prelude.{
  ℕ, zero, suc, ◌+◌, ◌*◌, ◌^◌, ◌/◌, ◌%◌, ◌≤◌, ◌<◌, ◌≡◌, ◌≢◌, refl, sym, ap, ◌∙◌, Bool, true, false,
  Option, some, List, [], ◌∷◌, ◌++◌, length, arith, ◌==◌, inl, inr, Bool-cases,
}

-- Several puts before those of the rest.
abbrev pub put_all :
    List (Query × TreeNode) → Option (List (Query × TreeNode)) → Option (List (Query × TreeNode))
put_all [] more = more
put_all ((parent, node) ∷ puts) more = put_first parent node (put_all puts more)

pub put_all-some :
    (puts rest : List (Query × TreeNode)) → put_all puts (some rest) ≡ some (puts ++ rest)
put_all-some [] rest = refl
put_all-some ((q, n) ∷ puts) rest = ap (put_first q n) (put_all-some puts rest)

module _ (alive : ℕ → Bool) (good : (n : ℕ) → alive n ≡ true) (lefts rights : List Query)
    (root_size : ℕ) where
  step :
      (f n : ℕ) (q : Query) (rest rest' : List Query) (parent : Query) (node : TreeNode)
      → (q.size == root_size) ≡ false
      → (get_parent q).0 ≡ parent
      → children_of lefts rights root_size q rest ≡ (node, rest')
      → process alive lefts rights root_size (suc f) n (q ∷ rest)
        ≡ put_first parent node
            (process alive lefts rights root_size f (suc n) (rest' ++ parent ∷ []))
  unfolding process
  step f n q rest rest' parent node below up joined = rw (good n, below, up, joined, process) refl

  module _ (id version size : ℕ) (pos : 0 < size) (below : size ≢ root_size) where
    nodes : ℕ → ℕ → List Query
    nodes i n = run id version lefts rights size i n

    not_root : (size == root_size) ≡ false
    not_root = ground (arith, below)

    run-snoc :
        (s p m : ℕ)
        → run id version lefts rights s p m ++ node_at id version s (p + m) ∷ []
          ≡ run id version lefts rights s p (suc m)
    run-snoc s p zero = ap (λ i. node_at id version s i ∷ []) (omega arith)
    run-snoc s p (suc m) =
        ap (λ t. node_at id version s p ∷ t)
          (ap (λ i. run id version lefts rights s (suc p) m ++ node_at id version s i ∷ [])
              (omega arith)
            ∙ run-snoc s (suc p) m)

    at_most : {a b : ℕ} → a ≤ b → b * size ≤ 2 ^ 63 → a * size ≤ 2 ^ 63
    at_most le h = omega (arith, mul-le-mul_right size le, h)

    -- The queue with one parent more.
    joined :
        (j p m : ℕ)
        → p + m ≡ j
        → run id version lefts rights (2 * size) p m ++ node_at id version (2 * size) j ∷ []
          ≡ run id version lefts rights (2 * size) p (suc m)
    joined j p m e =
        ap (λ i. run id version lefts rights (2 * size) p m ++ node_at id version (2 * size) i ∷ [])
          (sym e)
        ∙ run-snoc (2 * size) p m

    same_state :
        (f k k' p m m' : ℕ)
        → k ≡ k'
        → m ≡ m'
        → (g : Option (List (Query × TreeNode)) → Option (List (Query × TreeNode)))
        → g (process alive lefts rights root_size f k (run id version lefts rights (2 * size) p m))
          ≡ g (
              process alive lefts rights root_size f k'
                (run id version lefts rights (2 * size) p m'))
    same_state f k k' p m m' e h g =
        ap
          (λ t.
            g (
              process alive lefts rights root_size f t
                (run id version lefts rights (2 * size) p m)))
          e
        ∙ ap
            (λ t. g (
              process alive lefts rights root_size f k'
                (run id version lefts rights (2 * size) p t)))
            h

    -- A level from a left child on; `m` parents of it are in the queue already.
    pass_lem :
        (n j p m f k : ℕ)
        → p + m ≡ j
        → (2 * j + n + 1) * size ≤ 2 ^ 63
        → process alive lefts rights root_size
            (length (pass id version lefts rights size j n) + f)
            k
            (run id version lefts rights size (2 * j) n
              ++ run id version lefts rights (2 * size) p m)
          ≡ put_all (pass id version lefts rights size j n) (
              process alive lefts rights root_size f
                (k + length (pass id version lefts rights size j n))
                (run id version lefts rights
                  (2 * size)
                  p
                  (m + length (pass id version lefts rights size j n))))
    pass_lem zero j p m f k e fits =
        let no_fuel : 0 + f ≡ f = omega arith in
        let no_put : k + 0 ≡ k = omega arith in
        let no_node : m + 0 ≡ m = omega arith in rw (no_fuel, no_put, no_node) refl
    pass_lem (suc zero) j p m f k e fits =
        let one : 1 + f ≡ suc f = omega arith in
        let bound : (2 * j + 2) * size ≤ 2 ^ 63 = at_most (omega arith) fits in
        let above = run id version lefts rights (2 * size) p m in
        let parent = node_at id version (2 * size) j in
        let node =
          inner (node_at id version size (2 * j))
            (right_brother id version lefts rights size (2 * j)) in
        rw one (
          step f k (node_at id version size (2 * j)) above above parent node not_root
            (ap (λ t. t.0) (get_parent-even id version size j pos bound))
            (children_of_last id version lefts rights root_size size j pos below bound p m)
          ∙ ap (λ l. put_first parent node (process alive lefts rights root_size f (suc k) l))
              (joined j p m e)
          ∙ same_state f (suc k) (k + 1) p (suc m) (m + 1) (omega arith) (omega arith)
              (put_first parent node))
    pass_lem (suc (suc n)) j p m f k e fits =
        let l = length (pass id version lefts rights size (suc j) n) in
        let one : suc l + f ≡ suc (l + f) = omega arith in
        let bound : (2 * j + 2) * size ≤ 2 ^ 63 = at_most (omega arith) fits in
        let second : suc (2 * j) ≡ 2 * j + 1 = omega arith in
        let third : suc (2 * j + 1) ≡ 2 * suc j = omega arith in
        let above = run id version lefts rights (2 * size) p m in
        let after = run id version lefts rights size (2 * suc j) n in
        let parent = node_at id version (2 * size) j in
        let node = inner (node_at id version size (2 * j)) (node_at id version size (2 * j + 1)) in
        rw (one, second, third)
          (step (l + f) k (node_at id version size (2 * j))
              (node_at id version size (2 * j + 1) ∷ (after ++ above)) (after ++ above) parent node
              not_root (ap (λ t. t.0) (get_parent-even id version size j pos bound))
              (children_of_pair id version lefts rights root_size size j pos below bound
                (after ++ above))
            ∙ ap
                (λ t.
                  put_first parent node (process alive lefts rights root_size (l + f) (suc k) t))
                (append_assoc after above _ ∙ ap (λ t. after ++ t) (joined j p m e))
            ∙ ap (put_first parent node) (
                pass_lem n (suc j) p (suc m) f (suc k) (omega (arith, e))
                  (at_most (omega arith) fits))
            ∙ same_state f (suc k + l) (k + suc l) p (suc m + l) (m + suc l) (omega arith)
                (omega arith)
                (λ o.
                  put_first parent node (put_all (pass id version lefts rights size (suc j) n) o)))

    parents_even :
        (j n f k : ℕ)
        → (2 * j + suc n + 1) * size ≤ 2 ^ 63
        → process alive lefts rights root_size
            (length (pass id version lefts rights size j (suc n)) + f)
            k
            (run id version lefts rights size (2 * j) (suc n))
          ≡ put_all (pass id version lefts rights size j (suc n)) (
              process alive lefts rights root_size f
                (k + length (pass id version lefts rights size j (suc n)))
                (run id version lefts rights
                  (2 * size)
                  j
                  (length (pass id version lefts rights size j (suc n)))))
    parents_even j n f k fits =
        let l = length (pass id version lefts rights size j (suc n)) in
        ap (process alive lefts rights root_size (l + f) k)
          (sym (append-nil (run id version lefts rights size (2 * j) (suc n))))
        ∙ pass_lem (suc n) j j 0 f k (omega arith) fits
        ∙ same_state f (k + l) (k + l) j (0 + l) l refl (omega arith)
            (put_all (pass id version lefts rights size j (suc n)))

    parents_odd :
        (j n f k : ℕ)
        → (2 * j + 1 + suc n + 1) * size ≤ 2 ^ 63
        → process alive lefts rights root_size
            (length (pass_odd id version lefts rights size j n) + f)
            k
            (run id version lefts rights size (2 * j + 1) (suc n))
          ≡ put_all (pass_odd id version lefts rights size j n) (
              process alive lefts rights root_size f
                (k + length (pass_odd id version lefts rights size j n))
                (run id version lefts rights
                  (2 * size)
                  j
                  (length (pass_odd id version lefts rights size j n))))
    parents_odd j n f k fits =
        let l = length (pass id version lefts rights size (suc j) n) in
        let one : suc l + f ≡ suc (l + f) = omega arith in
        let second : suc (2 * j + 1) ≡ 2 * j + 2 = omega arith in
        let bound : (2 * j + 2) * size ≤ 2 ^ 63 = at_most (omega arith) fits in
        let parent = node_at id version (2 * size) j in
        let node =
          inner (left_brother id version lefts rights size (2 * j + 1))
            (node_at id version size (2 * j + 1)) in
        let after = run id version lefts rights size (2 * j + 2) n in
        rw (one, second)
          (step (l + f) k (node_at id version size (2 * j + 1)) after after parent node not_root
              (ap (λ t. t.0) (get_parent-odd id version size j pos bound))
              (children_of_first id version lefts rights root_size size j pos below bound n
                (λ ne. at_most (at_least n ne) fits))
            ∙ ap
                (λ t. put_first parent node (
                  process alive lefts rights root_size (l + f) (suc k)
                    (run id version lefts rights size t n ++ parent ∷ [])))
                (omega arith)
            ∙ ap (put_first parent node)
                (pass_lem n (suc j) j 1 f (suc k) (omega arith) (at_most (omega arith) fits))
            ∙ same_state f (suc k + l) (k + suc l) j (1 + l) (suc l) (omega arith) (omega arith)
                (λ o.
                  put_first parent node (put_all (pass id version lefts rights size (suc j) n) o)))
      where
        at_least : (n : ℕ) → n ≢ 0 → 2 * j + 4 ≤ 2 * j + 1 + suc n + 1
        at_least n ne = omega (arith, ne)

    -- A level of at least one node.
    pub parents_lem :
        (n i f k : ℕ)
        → (i + suc n + 1) * size ≤ 2 ^ 63
        → process alive lefts rights root_size
            (length (parents id version lefts rights size i n) + f)
            k
            (run id version lefts rights size i (suc n))
          ≡ put_all (parents id version lefts rights size i n) (
              process alive lefts rights root_size f
                (k + length (parents id version lefts rights size i n))
                (run id version lefts rights
                  (2 * size)
                  (i / 2)
                  (length (parents id version lefts rights size i n))))
    parents_lem n i f k fits = elim (Bool-cases (i % 2 == 0)) [
      | inl even ↦
          let whole : 2 * (i / 2) ≡ i = ground arith in
          rw even (
            ap
              (λ t.
                process alive lefts rights root_size
                  (length (pass id version lefts rights size (i / 2) (suc n)) + f) k
                  (run id version lefts rights size t (suc n)))
              (sym whole)
            ∙ parents_even (i / 2) n f k (at_most (omega (arith, whole)) fits))
      | inr odd ↦
          let whole : 2 * (i / 2) + 1 ≡ i = ground arith in
          rw odd (
            ap
              (λ t.
                process alive lefts rights root_size
                  (length (pass_odd id version lefts rights size (i / 2) n) + f) k
                  (run id version lefts rights size t (suc n)))
              (sym whole)
            ∙ parents_odd (i / 2) n f k (at_most (omega (arith, whole)) fits))
    ]
