-- ===== src/Client/Tiles.antt =====
-- The plan of a read tiles the user's buffer (`read` of client/object_handler.cpp).
use native.Mathlib.Nat.{add-mul, suc-mul}
use blobseer.Client.Plan.{PageRead, left_part, right_part, left_read, right_read, whole_reads}
use blobseer.Prelude.{
  ℕ, zero, suc, ◌+◌, ◌-◌, ◌*◌, ◌/◌, ◌%◌, ◌^◌, ◌≤◌, ◌<◌, ◌≡◌, ◌≢◌, refl, subst, ap, true, false,
  List, All, Any, u32, u64, arith, inl, inr, Bool-cases, ltb, ltb→lt,
}

-- The request takes the bytes that belong at its place in the user's buffer, and they lie in the
-- buffer and in the page.
pub record Fits (psize offset size : ℕ) (p : PageRead) : Type 0 where
  pub aligned : (offset / psize + p.index) * psize + p.start ≡ offset + p.dest
  pub inside : p.dest + p.count ≤ size
  pub nonempty : 0 < p.count
  pub in_page : p.start + p.count ≤ psize
  pub whole : p.is_partial ≡ false → (p.start ≡ 0) × (p.count ≡ psize)

true_ne_false : true ≢ false
true_ne_false e = cc

abbrev pub Reaches : ℕ → PageRead → Type 0
Reaches k p = (p.dest ≤ k) × (k < p.dest + p.count)

module _ (psize offset size : ℕ) (pos : 0 < psize) (small : offset + size ≤ 2 ^ 62) where
  abbrev pub first : ℕ
  first = offset / psize

  -- The whole pages after `m` of them, where the first of all is number `l` and goes to `left`.
  module _ (left l : ℕ) (start : (first + l) * psize ≡ offset + left) where
    pub dest_of :
        (m : ℕ)
        → left + m * psize ≤ size
        → l + m < u32
        → (left + (l + m + u32 - l) % u32 * psize) % u64 ≡ left + m * psize
    dest_of m le few =
        let back : (l + m + u32 - l) % u32 ≡ m = omega (arith, few) in
        rw back (omega (arith, le, small))

    aligned_of : (m : ℕ) → (first + (l + m)) * psize ≡ offset + (left + m * psize)
    aligned_of m =
        let sum : first + (l + m) ≡ first + l + m = omega arith in
        omega (arith, ap (λ t. t * psize) sum, add-mul (first + l) m psize, start)

    whole_reads-Fits :
        (n m : ℕ)
        → left + (m + n) * psize ≤ size
        → l + m + n < u32
        → All (Fits psize offset size) (whole_reads psize left l (l + m) n)
    unfolding whole_reads
    whole_reads-Fits zero m le few = tt
    whole_reads-Fits (suc n) m le few =
        let next : suc (l + m) ≡ l + suc m = omega arith in
        let count : suc m + n ≡ m + suc n = omega arith in
        let end : (m + suc n) * psize ≡ m * psize + psize + n * psize =
          omega (arith, add-mul m (suc n) psize, suc-mul n psize) in
        let here : (left + (l + m + u32 - l) % u32 * psize) % u64 ≡ left + m * psize =
          dest_of m (omega (arith, end, le)) (omega (arith, few)) in
        (
          record {
            aligned = omega (arith, here, aligned_of m);
            inside = omega (arith, here, end, le);
            nonempty = pos;
            in_page = omega arith;
            whole = λ e. (refl, refl);
          },
          rw next (
              whole_reads-Fits n (suc m) (omega (arith, ap (λ t. t * psize) count, le))
                (omega (arith, few))),
        )

    whole_reads-Reaches :
        (n m k : ℕ)
        → left + (m + n) * psize ≤ size
        → l + m + n < u32
        → left + m * psize ≤ k
        → k < left + (m + n) * psize
        → Any (Reaches k) (whole_reads psize left l (l + m) n)
    unfolding whole_reads
    whole_reads-Reaches zero m k le few from to =
        let none : m + 0 ≡ m = omega arith in
        absurd (omega (arith, ap (λ t. t * psize) none, from, to))
    whole_reads-Reaches (suc n) m k le few from to =
        let next : suc (l + m) ≡ l + suc m = omega arith in
        let count : suc m + n ≡ m + suc n = omega arith in
        let end : (m + suc n) * psize ≡ m * psize + psize + n * psize =
          omega (arith, add-mul m (suc n) psize, suc-mul n psize) in
        let here : (left + (l + m + u32 - l) % u32 * psize) % u64 ≡ left + m * psize =
          dest_of m (omega (arith, end, le)) (omega (arith, few)) in
        elim (Bool-cases (ltb k (left + m * psize + psize))) [
          | inl near ↦ inl (omega (arith, here, from), omega (arith, here, ltb→lt _ _ near))
          | inr far ↦ inr (
              rw next (
                whole_reads-Reaches n (suc m) k (omega (arith, ap (λ t. t * psize) count, le))
                  (omega (arith, few)) (ground (arith, suc-mul m psize))
                  (omega (arith, ap (λ t. t * psize) count, to))))
        ]

  -- What `plan` does, and that it reaches every byte of the buffer.
  abbrev Tiled : List PageRead → Type 0
  Tiled ps = All (Fits psize offset size) ps × ((k : ℕ) → k < size → Any (Reaches k) ps)

  -- The whole pages from place `left` on.
  pub whole_part :
      (left l n : ℕ)
      → (first + l) * psize ≡ offset + left
      → left + n * psize ≤ size
      → l + n < u32
      → All (Fits psize offset size) (whole_reads psize left l l n)
        × ((k : ℕ)
            → left ≤ k
            → k < left + n * psize
            → Any (Reaches k) (whole_reads psize left l l n))
  whole_part left l n start le few =
      let here : l + 0 ≡ l = omega arith in
      let count : 0 + n ≡ n = omega arith in
      let none : l + 0 + n ≡ l + n = omega arith in
      let le' : left + (0 + n) * psize ≤ size = omega (arith, ap (λ t. t * psize) count, le) in
      let few' : l + 0 + n < u32 = omega (arith, few) in
      (
        subst (λ t. All (Fits psize offset size) (whole_reads psize left l t n)) here
            (whole_reads-Fits left l start n 0 le' few'),
        λ k from to.
            subst (λ t. Any (Reaches k) (whole_reads psize left l t n)) here
              (whole_reads-Reaches left l start n 0 k le' few' (omega (arith, from))
                (omega (arith, ap (λ t. t * psize) count, to))),
      )

  pub left_read-Fits :
      (first + 1) * psize ≡ offset + left_part psize offset
      → left_part psize offset ≤ psize
      → 0 < left_part psize offset
      → 0 < size
      → Fits psize offset size (left_read psize offset size)
  left_read-Fits start le lp byte =
      let back : (first + 1) * psize ≡ first * psize + psize = omega (arith, suc-mul first psize) in
      let none : first + 0 ≡ first = omega arith in
      record {
        aligned = omega (arith, start, back, le, ap (λ t. t * psize) none);
        inside = ground arith;
        nonempty = ground (arith, byte, lp);
        in_page = ground arith;
        whole = λ e. absurd (true_ne_false e);
      }

  pub right_read-Fits :
      (l n : ℕ)
      → (first + l) * psize ≡ offset + left_part psize offset
      → left_part psize offset + n * psize + right_part psize offset size ≤ size
      → l + n < u32
      → right_part psize offset size ≤ psize
      → 0 < right_part psize offset size
      → Fits psize offset size (right_read psize offset size l (l + n))
  right_read-Fits l n start le few in_page some_bytes =
      let here = dest_of (left_part psize offset) l start n (omega (arith, le)) few in
      record {
        aligned = omega (arith, here, aligned_of (left_part psize offset) l start n);
        inside = omega (arith, here, le);
        nonempty = some_bytes;
        in_page = omega (arith, in_page);
        whole = λ e. absurd (true_ne_false e);
      }
