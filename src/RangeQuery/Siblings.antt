-- ===== src/RangeQuery/Siblings.antt =====
-- The children that a writer joins under a parent (client/range_query.cpp): the next node of the
-- queue where it is the other child, and a sibling of another version where it is not.
use native.Mathlib.Nat.{suc-mul}
use blobseer.RangeQuery.{partner, children_of}
use blobseer.RangeQuery.Placement.{node_at, get_parent-even, get_parent-odd}
use blobseer.RangeQuery.Tree.{run, right_brother, left_brother, inner}
use blobseer.Structures.{Query, same_query, get_parent, left_child}
use blobseer.Prelude.{
  ℕ, zero, suc, ◌+◌, ◌*◌, ◌%◌, ◌^◌, ◌≤◌, ◌<◌, ◌≡◌, ◌≢◌, refl, sym, ap, subst, ◌∙◌, true, false,
  Bool, ◌&&◌, none, List, ◌∷◌, arith, u64, ◌==◌,
}

same_query_refl : (q : Query) → same_query q q ≡ true
unfolding same_query
same_query_refl q = ground arith

other_size : (q r : Query) → q.size ≢ r.size → same_query q r ≡ false
unfolding same_query
other_size q r ne = ground arith

and_false : (b : Bool) → b && false ≡ false
and_false true = refl
and_false false = refl

partner_other :
    (root_size : ℕ) (parent r : Query) (rest : List Query)
    → same_query parent (get_parent r).0 ≡ false
    → partner root_size parent (r ∷ rest) ≡ none
unfolding partner
partner_other root_size parent r rest e = rw (e, and_false, and_false, partner) refl

partner_left :
    (root_size : ℕ) (parent r : Query) (rest : List Query)
    → (get_parent r).1 ≡ left_child
    → partner root_size parent (r ∷ rest) ≡ none
unfolding partner
partner_left root_size parent r rest e = rw (e, and_false, partner) refl

size-get_parent : (q : Query) → (get_parent q).0.size ≡ (2 * q.size) % u64
unfolding get_parent
size-get_parent q = ground arith

module _ (id version : ℕ) (lefts rights : List Query) (root_size size j : ℕ) (pos : 0 < size)
    (below : size ≢ root_size) (fits : (2 * j + 2) * size ≤ 2 ^ 63) where
  not_root : (size == root_size) ≡ false
  not_root = ground (arith, below)

  narrow : 2 * size ≤ 2 ^ 63
  narrow = omega (arith, suc-mul (2 * j + 1) size, suc-mul (2 * j) size, fits)

  ap_le : {a b : ℕ} → a ≡ b → b * size ≤ 2 ^ 63 → a * size ≤ 2 ^ 63
  ap_le e h = subst (λ t. t * size ≤ 2 ^ 63) (sym e) h

  -- Two nodes with the same parent.
  pub children_of_pair :
      (rest : List Query)
      → children_of lefts rights root_size
          (node_at id version size (2 * j))
          (node_at id version size (2 * j + 1) ∷ rest)
        ≡ (inner (node_at id version size (2 * j)) (node_at id version size (2 * j + 1)), rest)
  unfolding children_of partner
  children_of_pair rest =
      rw
        (
          get_parent-even id version size j pos fits,
          get_parent-odd id version size j pos fits,
          not_root,
          same_query_refl (node_at id version (2 * size) j),
          children_of,
          partner,
        )
        refl

  -- A last node that is a left child: what comes next in the queue is of another size.
  pub children_of_last :
      (p m : ℕ)
      → children_of lefts rights root_size
          (node_at id version size (2 * j))
          (run id version lefts rights (2 * size) p m)
        ≡ (
          inner
              (node_at id version size (2 * j))
              (right_brother id version lefts rights size (2 * j)),
          run id version lefts rights (2 * size) p m,
        )
  unfolding children_of partner
  children_of_last p zero =
      rw (get_parent-even id version size j pos fits, children_of, partner) refl
  children_of_last p (suc m) =
      let r = node_at id version (2 * size) p in
      let rest = run id version lefts rights (2 * size) (suc p) m in
      let even = get_parent-even id version size j pos fits in
      let larger : 2 * size ≢ (get_parent r).0.size =
        λ e. absurd (omega (arith, e, size-get_parent r, pos, narrow)) in
      let none_left =
        partner_other root_size (node_at id version (2 * size) j) r rest
          (other_size (node_at id version (2 * size) j) (get_parent r).0 larger) in
      rw (even, none_left, children_of, even) refl

  -- A first node that is a right child.
  pub children_of_first :
      (n : ℕ)
      → (n ≢ 0 → (2 * j + 4) * size ≤ 2 ^ 63)
      → children_of lefts rights root_size
          (node_at id version size (2 * j + 1))
          (run id version lefts rights size (2 * j + 2) n)
        ≡ (
          inner
              (left_brother id version lefts rights size (2 * j + 1))
              (node_at id version size (2 * j + 1)),
          run id version lefts rights size (2 * j + 2) n,
        )
  unfolding children_of partner
  children_of_first zero h =
      rw (get_parent-odd id version size j pos fits, children_of, partner) refl
  children_of_first (suc n) h =
      let r = node_at id version size (2 * j + 2) in
      let rest = run id version lefts rights size (suc (2 * j + 2)) n in
      let odd = get_parent-odd id version size j pos fits in
      let next : r ≡ node_at id version size (2 * suc j) =
        ap (node_at id version size) (omega arith) in
      let wide : (2 * suc j + 2) * size ≤ 2 ^ 63 = ap_le (omega arith) (h (λ e. absurd (cc e))) in
      let left : (get_parent r).1 ≡ left_child =
        ap (λ q. (get_parent q).1) next
        ∙ ap (λ t. t.1) (get_parent-even id version size (suc j) pos wide) in
      let none_left = partner_left root_size (node_at id version (2 * size) j) r rest left in
      rw (odd, none_left, children_of, odd) refl
