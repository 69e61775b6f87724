-- ===== src/RangeQuery/Placement.antt =====
-- The nodes of one level of the tree, the step of `getParent` (common/structures.hpp) from a node to
-- its parent, and the brother of a node in `compute_sibling_versions` (client/range_query.cpp).
use native.Mathlib.Nat.{
  mul_assoc, mul_comm, mul-mod_left, mul-add-mod_self_right, mod-eq_of_lt, suc-mul,
}
use blobseer.RangeQuery.{brother_of}
use blobseer.Structures.{Query, left_child, right_child, get_parent}
use blobseer.Prelude.{
  ℕ, ◌+◌, ◌-◌, ◌*◌, ◌%◌, ◌^◌, ◌≤◌, ◌<◌, ◌≡◌, ap, ◌∙◌, true, false, arith, u64, ◌==◌,
}

-- The node of a size with the number `i` from the left, of a blob and a version.
abbrev pub node_at : ℕ → ℕ → ℕ → ℕ → Query
node_at id version size i = record { id = id; version = version; offset = i * size; size = size }

module _ (id version size j : ℕ) (pos : 0 < size) (fits : (2 * j + 2) * size ≤ 2 ^ 63) where
  twice : (2 * j) * size ≡ j * (2 * size)
  twice = ap (λ t. t * size) (mul_comm 2 j) ∙ mul_assoc j 2 size

  spread : (2 * j + 2) * size ≡ j * (2 * size) + 2 * size
  spread = omega (arith, suc-mul (2 * j + 1) size, suc-mul (2 * j) size, twice)

  start : (2 * j + 1) * size ≡ j * (2 * size) + size
  start = omega (arith, suc-mul (2 * j) size, twice)

  pub in_word : (2 * size) % u64 ≡ 2 * size
  in_word = omega (arith, spread, fits)

  pub get_parent-even :
      get_parent (node_at id version size (2 * j)) ≡ (node_at id version (2 * size) j, left_child)
  unfolding get_parent
  get_parent-even =
      let rest : (2 * j) * size % (2 * size) ≡ 0 =
        ap (λ t. t % (2 * size)) twice ∙ mul-mod_left j (2 * size) in
      let test : ((2 * j) * size % (2 * size) == 0) ≡ true = ground (arith, rest) in
      rw (in_word, test)
        (ap (λ t. (record { id = id; version = version; offset = t; size = 2 * size }, left_child))
          twice)

  pub get_parent-odd :
      get_parent (node_at id version size (2 * j + 1))
      ≡ (node_at id version (2 * size) j, right_child)
  unfolding get_parent
  get_parent-odd =
      let rest : (2 * j + 1) * size % (2 * size) ≡ size =
        ap (λ t. t % (2 * size)) start
        ∙ mul-add-mod_self_right j (2 * size) size
        ∙ mod-eq_of_lt (omega (arith, pos)) in
      let test : ((2 * j + 1) * size % (2 * size) == 0) ≡ false = ground (arith, rest, pos) in
      let low : ((2 * j + 1) * size + u64 - size) % u64 ≡ j * (2 * size) =
        omega (arith, start, spread, fits) in
      rw (in_word, test)
        (ap (λ t. (record { id = id; version = version; offset = t; size = 2 * size }, right_child))
          low)

  -- The brother of a node, and where their parent starts.
  pub brother_of-even :
      brother_of (node_at id version size (2 * j))
      ≡ (node_at id version size (2 * j + 1), j * (2 * size))
  unfolding brother_of
  brother_of-even =
      let rest : (2 * j) * size % (2 * size) ≡ 0 =
        ap (λ t. t % (2 * size)) twice ∙ mul-mod_left j (2 * size) in
      let test : ((2 * j) * size % (2 * size) == 0) ≡ true = ground (arith, rest) in
      let high : ((2 * j) * size + size) % u64 ≡ (2 * j + 1) * size =
        omega (arith, start, twice, spread, fits) in
      rw (in_word, test, high) (ap (λ t. (node_at id version size (2 * j + 1), t)) twice)

  pub brother_of-odd :
      brother_of (node_at id version size (2 * j + 1))
      ≡ (node_at id version size (2 * j), j * (2 * size))
  unfolding brother_of
  brother_of-odd =
      let rest : (2 * j + 1) * size % (2 * size) ≡ size =
        ap (λ t. t % (2 * size)) start
        ∙ mul-add-mod_self_right j (2 * size) size
        ∙ mod-eq_of_lt (omega (arith, pos)) in
      let test : ((2 * j + 1) * size % (2 * size) == 0) ≡ false = ground (arith, rest, pos) in
      let low : ((2 * j + 1) * size + u64 - size) % u64 ≡ (2 * j) * size =
        omega (arith, start, twice, spread, fits) in
      rw (in_word, test, low) (ap (λ t. (node_at id version size (2 * j), t)) twice)
