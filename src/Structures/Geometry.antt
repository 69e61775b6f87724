-- ===== src/Structures/Geometry.antt =====
-- The intervals of the segment tree: intersection, and the step from a node to its parent
-- (common/structures.hpp).
use blobseer.Prelude.{ℕ, ◌+◌, ◌≤◌, ◌<◌, ◌≡◌, ◌↔◌, true, arith, u64, leb, if◌then◌else◌}
use blobseer.Structures.{Query, intersects}

-- The interval does not pass the end of the 64-bit range.
abbrev pub Bounded : Query → Type 0
Bounded q = q.offset + q.size < u64

-- The byte lies in the interval of the node.
abbrev pub Covers : Query → ℕ → Type 0
Covers q i = (q.offset ≤ i) × (i < q.offset + q.size)

-- A common byte of two nodes makes `intersects` true.
intersects_of_Covers :
    (q r : Query) (i : ℕ) → Bounded q → Bounded r → Covers q i → Covers r i → intersects q r ≡ true
unfolding intersects
intersects_of_Covers q r i hq hr cq cr = ground arith

later : Query → Query → ℕ
later q r = if leb q.offset r.offset then r.offset else q.offset

Covers-of_intersects :
    (q r : Query)
    → Bounded q
    → Bounded r
    → 0 < q.size
    → 0 < r.size
    → intersects q r ≡ true
    → Covers q (later q r) × Covers r (later q r)
unfolding intersects later
Covers-of_intersects q r hq hr pq pr h = ground arith

-- For nonempty nodes within the 64-bit range, `intersects` answers exactly whether the two have a
-- byte in common.
pub intersects_iff :
    (q r : Query)
    → Bounded q
    → Bounded r
    → 0 < q.size
    → 0 < r.size
    → (intersects q r ≡ true) ↔ ((i : ℕ) × Covers q i × Covers r i)
intersects_iff q r hq hr pq pr = (
  λ h. let c = Covers-of_intersects q r hq hr pq pr h in (later q r, c.0, c.1),
  λ (i, cq, cr). intersects_of_Covers q r i hq hr cq cr,
)
