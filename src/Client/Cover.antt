-- ===== src/Client/Cover.antt =====
-- The plan of a read reaches every byte of the user's buffer (`read` of client/object_handler.cpp).
use native.Mathlib.Nat.{
  div-add-mod', add-mul-mod_self_right, suc-mul, add-mul, mul-le-mul_right, mod-lt, div-le_self,
  mod-eq_of_lt, mod_self, div-eq_of_lt,
}
use blobseer.Client.Plan.{
  PageRead, nbr_vadv, left_part, right_part, cuts_left, cuts_right, left_read, right_read,
  whole_reads, plan,
}
use blobseer.Client.Tiles.{dest_of, Fits, Reaches, whole_part, left_read-Fits, right_read-Fits}
use blobseer.Prelude.{
  ℕ, suc, ◌+◌, ◌-◌, ◌*◌, ◌/◌, ◌%◌, ◌^◌, ◌≤◌, ◌<◌, ◌≡◌, refl, sym, ap, ◌∙◌, true, false, List, ◌∷◌,
  All, Any, u32, u64, arith, inl, inr, Bool-cases, ◌==◌, ltb, ltb→lt, if◌then◌else◌,
}

module _ (psize offset size : ℕ) where
  plan_whole :
      (pages : ℕ)
      → cuts_left psize offset ≡ false
      → cuts_right psize offset size pages ≡ false
      → plan psize offset size pages ≡ whole_reads psize (left_part psize offset) 0 0 (pages - 0)
  unfolding plan
  plan_whole pages e f = rw (e, f) refl

  plan_right :
      (pages : ℕ)
      → cuts_left psize offset ≡ false
      → cuts_right psize offset size pages ≡ true
      → plan psize offset size pages
        ≡ right_read psize offset size 0 (pages - 1)
          ∷ whole_reads psize (left_part psize offset) 0 0 (pages - 1 - 0)
  unfolding plan
  plan_right pages e f = rw (e, f) refl

  plan_left :
      (pages : ℕ)
      → cuts_left psize offset ≡ true
      → cuts_right psize offset size pages ≡ false
      → plan psize offset size pages
        ≡ left_read psize offset size ∷ whole_reads psize (left_part psize offset) 1 1 (pages - 1)
  unfolding plan
  plan_left pages e f = rw (e, f) refl

  plan_both :
      (pages : ℕ)
      → cuts_left psize offset ≡ true
      → cuts_right psize offset size pages ≡ true
      → plan psize offset size pages
        ≡ left_read psize offset size
          ∷ right_read psize offset size 1 (pages - 1)
          ∷ whole_reads psize (left_part psize offset) 1 1 (pages - 1 - 1)
  unfolding plan
  plan_both pages e f = rw (e, f) refl

  -- The bytes from the start of the first page on.
  abbrev span : ℕ
  span = offset % psize + size

  module _ (pos : 0 < psize) (some_byte : 0 < size) (small : offset + size ≤ 2 ^ 62) where
    offset_split : offset ≡ offset / psize * psize + offset % psize
    offset_split = sym (div-add-mod' offset psize)

    span_split : span ≡ span / psize * psize + span % psize
    span_split = sym (div-add-mod' span psize)

    span-mod : (offset + size) % u64 % psize ≡ span % psize
    span-mod =
        let whole : (offset + size) % u64 ≡ span + offset / psize * psize =
          omega (arith, small, offset_split) in
        rw whole (add-mul-mod_self_right span (offset / psize) psize)

    nbr_lem : nbr_vadv psize offset size ≡ span / psize + (if span % psize == 0 then 0 else 1)
    nbr_lem =
        let whole : (size + offset + u64 - offset / psize * psize) % u64 ≡ span =
          omega (arith, small, offset_split) in
        rw (whole, span-mod)
          (ground (arith, div-le_self span psize, small, offset_split, mod-lt offset pos))

    module _ (few : nbr_vadv psize offset size < u32) where
      pages : ℕ
      pages = nbr_vadv psize offset size

      -- What the parts of the plan add up to: `l` pages read in part on the left, and `n` whole.
      record Sum (l n right : ℕ) : Type 0 where
        start : (offset / psize + l) * psize ≡ offset + left_part psize offset
        total : left_part psize offset + n * psize + right ≡ size
        count : l + n < u32

      -- A read that starts at a page.
      aligned-Sum :
          offset % psize ≡ 0
          → (n right : ℕ) → n * psize + right ≡ size
          → n < u32
          → (left_part psize offset ≡ 0) × Sum 0 n right
      aligned-Sum e n right total count =
          let sub_none : psize - 0 ≡ psize = omega arith in
          let none : left_part psize offset ≡ 0 =
            ap (λ t. (psize - t) % psize) e ∙ ap (λ t. t % psize) sub_none ∙ mod_self psize in
          let zero_more : offset / psize + 0 ≡ offset / psize = omega arith in
          (
            none,
            record {
              start = omega (arith, offset_split, e, none, ap (λ t. t * psize) zero_more);
              total = omega (arith, none, total);
              count = omega (arith, count);
            },
          )

      part_cut : 0 < offset % psize → left_part psize offset ≡ psize - offset % psize
      part_cut e = mod-eq_of_lt (omega (arith, e, mod-lt offset pos))

      part_pos : 0 < offset % psize → 0 < left_part psize offset
      part_pos e = omega (arith, part_cut e, mod-lt offset pos)

      start_cut :
          0 < offset % psize → (offset / psize + 1) * psize ≡ offset + left_part psize offset
      start_cut e =
          let one : offset / psize + 1 ≡ suc (offset / psize) = omega arith in
          omega (
            arith,
            offset_split,
            part_cut e,
            mod-lt offset pos,
            suc-mul (offset / psize) psize,
            ap (λ t. t * psize) one,
          )

      cut-Sum :
          0 < offset % psize
          → (n right : ℕ) → span ≡ suc n * psize + right
          → 1 + n < u32
          → Sum 1 n right
      cut-Sum e n right total count = record {
        start = start_cut e;
        total = omega (arith, part_cut e, total, mod-lt offset pos, suc-mul n psize);
        count = count;
      }

      quotient_pos : psize ≤ span → 1 ≤ span / psize
      quotient_pos le = elim (Bool-cases (span / psize == 0)) [
        | inl e ↦
            let none : span / psize * psize ≡ 0 * psize =
              ap (λ t. t * psize) (is_zero (span / psize) e) in
            absurd (omega (arith, none, span_split, le, mod-lt span pos))
        | inr e ↦ ground arith
      ]
        where
          is_zero : (n : ℕ) → (n == 0) ≡ true → n ≡ 0
          is_zero n e = ground arith

      abbrev pub Tiled : List PageRead → Type 0
      Tiled ps = All (Fits psize offset size) ps × ((k : ℕ) → k < size → Any (Reaches k) ps)

      tile_whole :
          (n : ℕ)
          → Sum 0 n 0
          → left_part psize offset ≡ 0
          → Tiled (whole_reads psize (left_part psize offset) 0 0 n)
      tile_whole n s none =
          let (fit, reach) =
            whole_part psize offset size pos small (left_part psize offset) 0 n s.start
              (omega (arith, s.total)) s.count in
          (fit, λ k lt. reach k (omega (arith, none)) (omega (arith, s.total, lt)))

      right_Reaches :
          (l n k : ℕ)
          → Sum l n (right_part psize offset size)
          → k < size
          → left_part psize offset + n * psize ≤ k
          → Reaches k (right_read psize offset size l (l + n))
      right_Reaches l n k s lt le =
          let here =
            dest_of psize offset size pos small (left_part psize offset) l s.start n
              (omega (arith, s.total)) s.count in
          (omega (arith, here, le), omega (arith, here, s.total, lt))

      right_Fits :
          (l n : ℕ)
          → 0 < right_part psize offset size
          → Sum l n (right_part psize offset size)
          → Fits psize offset size (right_read psize offset size l (l + n))
      right_Fits l n odd s =
          right_read-Fits psize offset size pos small l n s.start (omega (arith, s.total)) s.count
            (omega (arith, mod-lt ((offset + size) % u64) pos)) odd

      tile_right :
          (n : ℕ)
          → 0 < right_part psize offset size
          → Sum 0 n (right_part psize offset size)
          → left_part psize offset ≡ 0
          → Tiled (
              right_read psize offset size 0 (0 + n)
              ∷ whole_reads psize (left_part psize offset) 0 0 n)
      tile_right n odd s none =
          let (fit, reach) =
            whole_part psize offset size pos small (left_part psize offset) 0 n s.start
              (omega (arith, s.total)) s.count in
          (
            (right_Fits 0 n odd s, fit),
            λ k lt. elim (Bool-cases (ltb k (left_part psize offset + n * psize))) [
              | inl near ↦ inr (reach k (omega (arith, none)) (ltb→lt _ _ near))
              | inr far ↦ inl (right_Reaches 0 n k s lt (ground arith))
            ],
          )

      tile_left :
          (n : ℕ)
          → 0 < offset % psize
          → Sum 1 n 0
          → Tiled (left_read psize offset size ∷ whole_reads psize (left_part psize offset) 1 1 n)
      tile_left n e s =
          let (fit, reach) =
            whole_part psize offset size pos small (left_part psize offset) 1 n s.start
              (omega (arith, s.total)) s.count in
          (
            (
              left_read-Fits psize offset size pos small s.start
                  (omega (arith, mod-lt (psize - offset % psize) pos)) (part_pos e) some_byte,
              fit,
            ),
            λ k lt. elim (Bool-cases (ltb k (left_part psize offset))) [
              | inl near ↦ inl (omega arith, ground arith)
              | inr far ↦ inr (reach k (ground arith) (omega (arith, s.total, lt)))
            ],
          )

      tile_both :
          (n : ℕ)
          → 0 < offset % psize
          → 0 < right_part psize offset size
          → Sum 1 n (right_part psize offset size)
          → Tiled (
              left_read psize offset size
              ∷ right_read psize offset size 1 (1 + n)
              ∷ whole_reads psize (left_part psize offset) 1 1 n)
      tile_both n e odd s =
          let (fit, reach) =
            whole_part psize offset size pos small (left_part psize offset) 1 n s.start
              (omega (arith, s.total)) s.count in
          let left =
            left_read-Fits psize offset size pos small s.start
              (omega (arith, mod-lt (psize - offset % psize) pos)) (part_pos e) some_byte in
          (
            (left, (right_Fits 1 n odd s, fit)),
            λ k lt. elim (Bool-cases (ltb k (left_part psize offset))) [
              | inl near ↦ inl (omega arith, ground arith)
              | inr far ↦ inr (elim (Bool-cases (ltb k (left_part psize offset + n * psize))) [
                | inl near ↦ inr (reach k (ground arith) (ltb→lt _ _ near))
                | inr beyond ↦ inl (right_Reaches 1 n k s lt (ground arith))
              ])
            ],
          )

      -- A read within the first page that starts after its first byte and ends before its last.
      tile_inner :
          size ≤ psize - offset % psize
          → 0 < offset % psize
          → Tiled (left_read psize offset size ∷ whole_reads psize (left_part psize offset) 1 1 0)
      unfolding whole_reads
      tile_inner le e =
          let part = part_cut e in
          let left =
            left_read-Fits psize offset size pos small (start_cut e)
              (omega (arith, mod-lt (psize - offset % psize) pos)) (part_pos e) some_byte in
          ((left, tt), λ k lt. inl (omega arith, ground (arith, part)))

      right_part_lem : right_part psize offset size ≡ span % psize
      right_part_lem = span-mod

      few_pages : pages < u32
      unfolding pages
      few_pages = few

      -- The number of pages, where the range ends at the end of a page and where it does not.
      pages_even : span % psize ≡ 0 → pages ≡ span / psize
      unfolding pages
      pages_even e = nbr_lem ∙ ground (arith, e)

      pages_odd : 0 < span % psize → pages ≡ suc (span / psize)
      unfolding pages
      pages_odd e = nbr_lem ∙ ground (arith, e)

      -- A range that ends with a page has the size of at least one page from the first page's start.
      even_wide : span % psize ≡ 0 → psize ≤ span
      even_wide e = elim (Bool-cases (ltb span psize)) [
        | inl lt ↦
            let small_span : span % psize ≡ span = mod-eq_of_lt (ltb→lt _ _ lt) in
            absurd (omega (arith, small_span, e, some_byte))
        | inr ge ↦ ground arith
      ]

      tiles_even : offset % psize ≡ 0 → span % psize ≡ 0 → Tiled (plan psize offset size pages)
      tiles_even e even =
          let q = span / psize in
          let number = pages_even even in
          let (none, s) =
            aligned-Sum e q 0 (omega (arith, span_split, e, even))
              (omega (arith, few_pages, number)) in
          let whole : cuts_left psize offset ≡ false = ground (arith, e) in
          let no_right : cuts_right psize offset size pages ≡ false =
            ground (arith, e, even, right_part_lem, even_wide even) in
          let same : q - 0 ≡ q = omega arith in
          rw (plan_whole pages whole no_right, number, same) (tile_whole q s none)

      tiles_right : offset % psize ≡ 0 → 0 < span % psize → Tiled (plan psize offset size pages)
      tiles_right e odd =
          let q = span / psize in
          let number = pages_odd odd in
          let (none, s) =
            aligned-Sum e q (right_part psize offset size)
              (omega (arith, span_split, e, right_part_lem)) (omega (arith, few_pages, number)) in
          let whole : cuts_left psize offset ≡ false = ground (arith, e) in
          let right : cuts_right psize offset size pages ≡ true =
            elim (Bool-cases (ltb size psize)) [
              | inl lt ↦ ground (arith, odd, e, right_part_lem, lt)
              | inr ge ↦
                  let one = quotient_pos (ground (arith, e)) in
                  ground (arith, odd, e, right_part_lem, number, one)
            ] in
          let same : suc q - 1 ≡ 0 + q = omega arith in
          let same' : 0 + q - 0 ≡ q = omega arith in
          rw (plan_right pages whole right, number, same, same')
            (tile_right q (omega (arith, odd, right_part_lem)) s none)

      tiles_left : 0 < offset % psize → span % psize ≡ 0 → Tiled (plan psize offset size pages)
      tiles_left e even =
          let q = span / psize in
          let number = pages_even even in
          let one = quotient_pos (even_wide even) in
          let back : suc (q - 1) ≡ q = omega (arith, one) in
          let s =
            cut-Sum e (q - 1) 0 (omega (arith, span_split, even, ap (λ t. t * psize) back))
              (omega (arith, few_pages, number, one)) in
          let left : cuts_left psize offset ≡ true = ground (arith, e) in
          let no_right : cuts_right psize offset size pages ≡ false =
            ground (arith, e, even, right_part_lem) in
          rw (plan_left pages left no_right, number) (tile_left (q - 1) e s)

      tiles_inner :
          0 < offset % psize
          → 0 < span % psize
          → span < psize
          → Tiled (plan psize offset size pages)
      tiles_inner e odd lt =
          let number = pages_odd odd in
          let none : span / psize ≡ 0 = div-eq_of_lt lt in
          let one : pages ≡ 1 = omega (arith, number, none) in
          let left : cuts_left psize offset ≡ true = ground (arith, e) in
          let no_right : cuts_right psize offset size pages ≡ false = ground (arith, e, one) in
          rw (plan_left pages left no_right, one) (tile_inner (omega (arith, lt)) e)

      tiles_both :
          0 < offset % psize
          → 0 < span % psize
          → psize ≤ span
          → Tiled (plan psize offset size pages)
      tiles_both e odd le =
          let q = span / psize in
          let number = pages_odd odd in
          let one = quotient_pos le in
          let back : suc (q - 1) ≡ q = omega (arith, one) in
          let s =
            cut-Sum e (q - 1) (right_part psize offset size)
              (omega (arith, span_split, right_part_lem, ap (λ t. t * psize) back))
              (omega (arith, few_pages, number, one)) in
          let left : cuts_left psize offset ≡ true = ground (arith, e) in
          let right : cuts_right psize offset size pages ≡ true =
            ground (arith, odd, right_part_lem, number, one) in
          let same : suc q - 1 ≡ 1 + (q - 1) = omega (arith, one) in
          let same' : 1 + (q - 1) - 1 ≡ q - 1 = omega arith in
          rw (plan_both pages left right, number, same, same')
            (tile_both (q - 1) e (omega (arith, odd, right_part_lem)) s)

-- A request of the plan is for a page of the range.
pub Fits-in_range :
    (psize offset size : ℕ)
    → 0 < psize
    → 0 < size
    → offset + size ≤ 2 ^ 62
    → (few : nbr_vadv psize offset size < u32) → (p : PageRead) → Fits psize offset size p
    → p.index < nbr_vadv psize offset size
unfolding pages
Fits-in_range psize offset size pos byte small few p fits =
    let n = nbr_vadv psize offset size in
    let sp = offset % psize + size in
    let enough : sp ≤ n * psize = elim (Bool-cases (sp % psize == 0)) [
      | inl even ↦
          let number = pages_even psize offset size pos byte small few (ground arith) in
          omega (
            arith,
            span_split psize offset size pos byte small,
            ap (λ t. t * psize) number,
            is_zero _ even,
          )
      | inr odd ↦
          let number = pages_odd psize offset size pos byte small few (ground arith) in
          omega (
            arith,
            span_split psize offset size pos byte small,
            ap (λ t. t * psize) number,
            suc-mul (sp / psize) psize,
            mod-lt sp pos,
          )
    ] in
    elim (Bool-cases (ltb p.index n)) [
      | inl lt ↦ ltb→lt _ _ lt
      | inr ge ↦
          let le : n ≤ p.index = ground arith in
          absurd (
            omega (
              arith,
              fits.aligned,
              fits.inside,
              fits.nonempty,
              enough,
              offset_split psize offset size pos byte small,
              add-mul (offset / psize) p.index psize,
              mul-le-mul_right psize le,
            ))
    ]
  where
    is_zero : (n : ℕ) → (n == 0) ≡ true → n ≡ 0
    is_zero n e = ground arith

-- The requests of a read of at least one byte tile the user's buffer: each takes bytes from within
-- its page, puts them where they belong, within the buffer, and every byte of the buffer is asked
-- for. This for ranges that end by 2^62 and fewer than 2^32 pages.
pub plan-Tiles :
    (psize offset size : ℕ)
    → 0 < psize
    → 0 < size
    → offset + size ≤ 2 ^ 62
    → nbr_vadv psize offset size < u32
    → All (Fits psize offset size) (plan psize offset size (nbr_vadv psize offset size))
      × ((k : ℕ) → k < size → Any (Reaches k) (plan psize offset size (nbr_vadv psize offset size)))
unfolding pages
plan-Tiles psize offset size pos byte small few = elim (Bool-cases (offset % psize == 0)) [
  | inl e ↦ elim (Bool-cases ((offset % psize + size) % psize == 0)) [
    | inl even ↦ tiles_even psize offset size pos byte small few (ground arith) (ground arith)
    | inr odd ↦ tiles_right psize offset size pos byte small few (ground arith) (ground arith)
  ]
  | inr e ↦ elim (Bool-cases ((offset % psize + size) % psize == 0)) [
    | inl even ↦ tiles_left psize offset size pos byte small few (ground arith) (ground arith)
    | inr odd ↦ elim (Bool-cases (ltb (offset % psize + size) psize)) [
      | inl lt ↦
          tiles_inner psize offset size pos byte small few (ground arith) (ground arith)
            (ltb→lt _ _ lt)
      | inr ge ↦
          tiles_both psize offset size pos byte small few (ground arith) (ground arith)
            (ground arith)
    ]
  ]
]
