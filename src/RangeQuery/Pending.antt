-- ===== src/RangeQuery/Pending.antt =====
-- `compute_sibling_versions` of client/range_query.cpp: the siblings on the path from a leaf to the
-- root that writes still in the queue will make.
use mathlib.Core.List.{append-nil, append_assoc}
use native.Mathlib.Nat.{mul_assoc, mul_comm, suc-mul, pow-succ', mul-le-mul_right, pow-le-pow_right}
use blobseer.RangeQuery.{
  first_hit, brother_of, add_version, sibling_versions, compute_sibling_versions,
}
use blobseer.RangeQuery.Placement.{node_at, in_word, brother_of-even, brother_of-odd}
use blobseer.Structures.{Query, intersects}
use blobseer.VManager.Intervals.{Entry}
use blobseer.Prelude.{
  ℕ, zero, suc, ◌+◌, ◌-◌, ◌*◌, ◌/◌, ◌%◌, ◌^◌, ◌≤◌, ◌<◌, ◌≡◌, refl, subst, ltb→lt, ap, sym, ◌∙◌, inl,
  inr, true, false, Option, none, some, List, [], ◌∷◌, ◌++◌, reverse, All, Bool-cases, ltb, ◌==◌,
  if◌then◌else◌, arith,
}

-- What a brother gives: nothing if no queued write intersects it; else the brother under the version
-- of the newest one that does.
pub data Sibling (newest : List Entry) (brother : Query) : List Query → Type 0 where
  untouched :
      All (λ (e : Entry). intersects brother e.key ≡ false) newest → Sibling newest brother []
  pending :
      (later : List Entry) (e : Entry) (earlier : List Entry)
      → newest ≡ later ++ e ∷ earlier
      → All (λ (x : Entry). intersects brother x.key ≡ false) later
      → intersects brother e.key ≡ true
      → Sibling newest brother (record brother { version = e.key.version } ∷ [])

-- The number of the other child of the same parent.
abbrev pub brother_no : ℕ → ℕ
brother_no i = if i % 2 == 0 then i + 1 else i - 1

-- The siblings of the node with the number `i` and of those above it, up to `depth` levels.
abbrev pub Siblings : List Entry → ℕ → ℕ → ℕ → ℕ → ℕ → List Query → Type 0
Siblings newest id version zero size i l = l ≡ []
Siblings newest id version (suc depth) size i l =
    (s : List Query) × (above : List Query) × (l ≡ s ++ above)
    × Sibling newest (node_at id version size (brother_no i)) s
    × Siblings newest id version depth (2 * size) (i / 2) above

abbrev versioned : Query → Option ℕ → List Query
versioned brother none = []
versioned brother (some v) = record brother { version = v } ∷ []

add_version_lem :
    (brother : Query) (o : Option ℕ) (l : List Query)
    → add_version brother o l ≡ l ++ versioned brother o
add_version_lem brother none l = sym (append-nil l)
add_version_lem brother (some v) l = refl

first_hit-Sibling :
    (brother : Query) (newest : List Entry)
    → Sibling newest brother (versioned brother (first_hit brother newest))
unfolding first_hit
first_hit-Sibling brother [] = untouched tt
first_hit-Sibling brother (e ∷ es) = elim (Bool-cases (intersects brother e.key)) [
  | inl hit ↦ rw hit (pending [] e es refl tt hit)
  | inr miss ↦ rw miss (later (first_hit-Sibling brother es) miss)
]
  where
    later :
        {l : List Query}
        → Sibling es brother l
        → intersects brother e.key ≡ false
        → Sibling (e ∷ es) brother l
    later (untouched all) miss = untouched (miss, all)
    later (pending before x after same all hit) miss =
        pending (e ∷ before) x after (ap (λ t. e ∷ t) same) (miss, all) hit

-- One step up from the node with the number `i`.
brother_step :
    (id version size i : ℕ)
    → 0 < size
    → (2 * (i / 2) + 2) * size ≤ 2 ^ 63
    → brother_of (node_at id version size i)
      ≡ (node_at id version size (brother_no i), i / 2 * (2 * size))
brother_step id version size i pos fits = elim (Bool-cases (i % 2 == 0)) [
  | inl even ↦
      let same : 2 * (i / 2) ≡ i = ground arith in
      rw even (
        subst
          (λ n.
            brother_of (node_at id version size n)
            ≡ (node_at id version size (n + 1), i / 2 * (2 * size)))
          same (brother_of-even id version size (i / 2) pos fits))
  | inr odd ↦
      let same : 2 * (i / 2) + 1 ≡ i = ground arith in
      let back : i - 1 ≡ 2 * (i / 2) = omega (arith, same) in
      rw (odd, back)
        (subst
          (λ n.
            brother_of (node_at id version size n)
            ≡ (node_at id version size (2 * (i / 2)), i / 2 * (2 * size)))
          same (brother_of-odd id version size (i / 2) pos fits))
]

module _ (newest : List Entry) (id version root_size : ℕ) (small : root_size ≤ 2 ^ 63) where
  one_up :
      (f size i : ℕ) (siblings : List Query)
      → 0 < size
      → (2 * (i / 2) + 2) * size ≤ 2 ^ 63
      → ltb size root_size ≡ true
      → let brother = node_at id version size (brother_no i) in
        sibling_versions (suc f) newest root_size (node_at id version size i) siblings
        ≡ sibling_versions f newest root_size
            (node_at id version (2 * size) (i / 2))
            (siblings ++ versioned brother (first_hit brother newest))
  unfolding sibling_versions
  one_up f size i siblings pos fits more =
      let brother = node_at id version size (brother_no i) in
      rw
        (
          more,
          brother_step id version size i pos fits,
          in_word id version size (i / 2) pos fits,
          add_version_lem brother (first_hit brother newest) siblings,
        )
        refl

  sibling_versions_lem :
      (f depth size i : ℕ) (siblings : List Query)
      → 0 < size
      → i < 2 ^ depth
      → root_size ≡ size * 2 ^ depth
      → depth < f
      → (l : List Query) × (sibling_versions f newest root_size (node_at id version size i) siblings
          ≡ some (siblings ++ l))
        × Siblings newest id version depth size i l
  unfolding sibling_versions
  sibling_versions_lem zero depth size i siblings pos lt whole enough =
      absurd (omega (arith, enough))
  sibling_versions_lem (suc f) zero size i siblings pos lt whole enough =
      let over : ltb size root_size ≡ false = ground (arith, whole) in
      ([], rw over (ap some (sym (append-nil siblings))), refl)
  sibling_versions_lem (suc f) (suc depth) size i siblings pos lt whole enough =
      let doubled : 2 ^ suc depth ≡ 2 * 2 ^ depth = pow-succ' 2 depth in
      let half : i / 2 < 2 ^ depth = omega (arith, lt, doubled) in
      let whole' : root_size ≡ 2 * size * 2 ^ depth =
        whole
        ∙ ap (λ t. size * t) doubled
        ∙ sym (mul_assoc size 2 (2 ^ depth))
        ∙ ap (λ t. t * 2 ^ depth) (mul_comm size 2) in
      let under : (2 * (i / 2) + 2) * size ≤ 2 ^ suc depth * size =
        mul-le-mul_right size (omega (arith, half, doubled)) in
      let turned : 2 ^ suc depth * size ≡ root_size = mul_comm (2 ^ suc depth) size ∙ sym whole in
      let fits : (2 * (i / 2) + 2) * size ≤ 2 ^ 63 = omega (arith, under, turned, small) in
      let spread : (2 * (i / 2) + 2) * size ≡ 2 * (i / 2) * size + size + size =
        omega (arith, suc-mul (2 * (i / 2) + 1) size, suc-mul (2 * (i / 2)) size) in
      let more : ltb size root_size ≡ true = ground (arith, under, turned, spread, pos) in
      let brother = node_at id version size (brother_no i) in
      let hit = first_hit brother newest in
      let (above, runs, path) =
        sibling_versions_lem f depth (2 * size) (i / 2) (siblings ++ versioned brother hit)
          (omega (arith, pos)) half whole' (omega (arith, enough)) in
      (
        versioned brother hit ++ above,
        one_up f size i siblings pos fits more
            ∙ runs
            ∙ ap some (append_assoc siblings (versioned brother hit) above),
        (versioned brother hit, above, refl, first_hit-Sibling brother newest, path),
      )

shallow : (size depth : ℕ) → 0 < size → size * 2 ^ depth ≤ 2 ^ 63 → depth < 65
shallow size depth pos small = elim (Bool-cases (ltb depth 65)) [
  | inl lt ↦ ltb→lt _ _ lt
  | inr ge ↦
      let deep : 2 ^ 65 ≤ 2 ^ depth =
        pow-le-pow_right {n = 2} (omega arith) {i = 65} (ground (arith, ge)) in
      let scaled : 1 * 2 ^ depth ≤ size * 2 ^ depth =
        mul-le-mul_right (2 ^ depth) (omega (arith, pos)) in
      absurd (omega (arith, deep, scaled, small))
]

-- For a leaf of a tree of at most 2^63 bytes, the walk to the root ends, and gives level by level,
-- from the leaf up, the brother of the node on the path, under the version of the newest queued
-- write that intersects it, and nothing on a level where no queued write does.
pub compute_sibling_versions_lem :
    (intervals : List Entry) (id version size i depth : ℕ)
    → 0 < size
    → i < 2 ^ depth
    → size * 2 ^ depth ≤ 2 ^ 63
    → (l : List Query) × (compute_sibling_versions
          (node_at id version size i)
          intervals
          (size * 2 ^ depth)
        ≡ some l)
      × Siblings (reverse intervals) id version depth size i l
unfolding compute_sibling_versions
compute_sibling_versions_lem intervals id version size i depth pos lt small =
    sibling_versions_lem (reverse intervals) id version (size * 2 ^ depth) small 65 depth size i []
      pos lt refl (shallow size depth pos small)
