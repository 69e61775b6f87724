-- ===== src/Client/Listed.antt =====
-- The loop over the replicas of a page in `get_locations` (client/object_handler.cpp).
use mathlib.Core.List.{Perm}
use mathlib.Core.List.Perm
use native.Mathlib.Nat.{mod-lt, mod-eq_of_lt, add-mul, suc-mul}
use blobseer.Client.Fetched.{All-erase_at}
use blobseer.Client.Locations.{PageLocation, all_replicas, page_locations}
use blobseer.RangeQuery.Replicas.{RandomSelect}
use blobseer.Structures.{Provider, Query, null_provider, is_empty_provider}
use blobseer.Prelude.{
  ℕ, suc, zero, ◌+◌, ◌*◌, ◌%◌, ◌≤◌, ◌<◌, ◌≡◌, refl, false, ◌++◌, map, u64, some, List, [], ◌∷◌,
  length, get_or, erase_at, length-erase_at, All, All-get_or, arith, true,
}

module _ {A : Type 0} where
  Perm-erase_at :
      (d : A) (i : ℕ) (xs : List A) → i < length xs → Perm (get_or xs i d ∷ erase_at i xs) xs
  Perm-erase_at d i [] h = elim h [ ]
  Perm-erase_at d zero (x ∷ xs) h = Perm.refl (x ∷ xs)
  Perm-erase_at d (suc i) (x ∷ xs) h =
      Perm.trans (Perm.swap x (get_or xs i d) (erase_at i xs))
        (Perm.cons x (Perm-erase_at d i xs (omega arith)))

null_is_empty : is_empty_provider null_provider ≡ true
unfolding is_empty_provider
null_is_empty = refl

abbrev select_of : List Provider → Query → RandomSelect
select_of ps key = record { providers = ps; page_key = key }

module _ (random : ℕ → ℕ) where
  listed :
      (fuel n : ℕ) (ps : List Provider) (key : Query)
      → All (λ p. is_empty_provider p ≡ false) ps
      → length ps < fuel
      → (l : List Provider) × (all_replicas random fuel n (select_of ps key) ≡ some l) × Perm l ps
  unfolding all_replicas
  listed zero n ps key named h = absurd (omega (arith, h))
  listed (suc fuel) n [] key named h = ([], rw null_is_empty refl, Perm.nil)
  listed (suc fuel) n (p ∷ ps) key named h =
      let i = random n % length (p ∷ ps) in
      let lt : i < length (p ∷ ps) = mod-lt (random n) (omega arith) in
      let (l, found, perm) =
        listed fuel (suc n) (erase_at i (p ∷ ps)) key
          (All-erase_at (λ p. is_empty_provider p ≡ false) i (p ∷ ps) named)
          (omega (arith, h, length-erase_at i (p ∷ ps) lt)) in
      let there : is_empty_provider (get_or (p ∷ ps) i null_provider) ≡ false =
        All-get_or (λ p. is_empty_provider p ≡ false) (p ∷ ps) i null_provider lt named in
      (
        get_or (p ∷ ps) i null_provider ∷ l,
        rw (there, found) refl,
        Perm.trans (Perm.cons _ perm) (Perm-erase_at null_provider i (p ∷ ps) lt),
      )

-- Every replica of every page, page by page from page `i` on, each with the place of its page.
abbrev pub every_location : ℕ → ℕ → List RandomSelect → List PageLocation
every_location psize i [] = []
every_location psize i (s ∷ vadv) =
    map (λ p. record { provider = p; offset = i * psize; size = psize }) s.providers
    ++ every_location psize (suc i) vadv

-- No replica is the empty descriptor.
abbrev pub Named : RandomSelect → Type 0
Named s = All (λ p. is_empty_provider p ≡ false) s.providers

-- The list of the locations is made, and has every replica of every page once, with the place of
-- its page, whatever the random numbers are. This where no replica is the empty descriptor and the
-- pages end by 2^64.
pub page_locations-Perm :
    (random : ℕ → ℕ → ℕ) (psize i : ℕ) (vadv : List RandomSelect)
    → 0 < psize
    → All Named vadv
    → (i + length vadv) * psize ≤ u64
    → (ls : List PageLocation) × (page_locations random psize i vadv ≡ some ls)
      × Perm ls (every_location psize i vadv)
unfolding page_locations
page_locations-Perm random psize i [] pos named fits = ([], refl, Perm.nil)
page_locations-Perm random psize i (s ∷ vadv) pos named fits =
    let shift : suc i + length vadv ≡ i + suc (length vadv) = omega arith in
    let (rest, made, others) =
      page_locations-Perm random psize (suc i) vadv pos named.1 (rw shift fits) in
    let (l, found, perm) =
      listed (random i) (suc (length s.providers)) 0 s.providers s.page_key named.0 (omega arith) in
    let below : i * psize < u64 =
      omega (arith, pos, fits, add-mul i (suc (length vadv)) psize, suc-mul (length vadv) psize) in
    let place : i * psize % u64 ≡ i * psize = mod-eq_of_lt below in
    (
      map (λ p. record { provider = p; offset = i * psize; size = psize }) l ++ rest,
      rw (found, made, place) refl,
      Perm.append (Perm.map _ perm) others,
    )
