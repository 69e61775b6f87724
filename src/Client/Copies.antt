-- ===== src/Client/Copies.antt =====
-- What a read that finds its pages leaves in the user's buffer (`read` of client/object_handler.cpp).
use blobseer.Client.{Answer, returned}
use blobseer.Client.Fetched.{Gives, fetch_first}
use blobseer.Client.Fetches.{PageRequest, provider_read, provider_read_partial, fetched, fetch}
use blobseer.Client.Plan.{PageRead}
use blobseer.Client.Reads.{Memory, store, call_of, params_of, read_pages}
use blobseer.Client.Tiles.{Fits, Reaches}
use blobseer.RangeQuery.Replicas.{RandomSelect, null_select}
use blobseer.Rpc.{Buffer}
use blobseer.Structures.{Provider}
use blobseer.VManager.{Codecs}
use blobseer.Prelude.{
  ℕ, zero, suc, ◌+◌, ◌-◌, ◌*◌, ◌/◌, ◌≤◌, ◌<◌, ◌≡◌, refl, ap, ◌∙◌, true, false, some, List, [], ◌∷◌,
  length, get_or, All, Any, arith, inl, inr, ltb, leb, lt→ltb, Bool-cases, ◌⊎◌, ◌&&◌,
}

-- `n` bytes of a blob from a place on.
abbrev pub bytes : (ℕ → ℕ) → ℕ → ℕ → Buffer
bytes blob at zero = []
bytes blob at (suc n) = blob at ∷ bytes blob (suc at) n

length-bytes : (blob : ℕ → ℕ) (at n : ℕ) → length (bytes blob at n) ≡ n
length-bytes blob at zero = refl
length-bytes blob at (suc n) = ap suc (length-bytes blob (suc at) n)

get_or-bytes : (blob : ℕ → ℕ) (at n i : ℕ) → i < n → get_or (bytes blob at n) i 0 ≡ blob (at + i)
get_or-bytes blob at zero i lt = absurd (omega arith)
get_or-bytes blob at (suc n) zero lt = ap blob (omega arith)
get_or-bytes blob at (suc n) (suc i) lt =
    get_or-bytes blob (suc at) n i (omega arith) ∙ ap blob (omega arith)

module _ (blob : ℕ → ℕ) (offset size : ℕ) where
  -- The buffer after the requests.
  abbrev pub filled : List PageRead → Memory → Memory
  filled [] mem = mem
  filled (p ∷ ps) mem = filled ps (store p.dest (bytes blob (offset + p.dest) p.count) mem)

  -- One request fills its own places.
  store-Reaches :
      (p : PageRead) (mem : Memory) (k : ℕ)
      → Reaches k p
      → store p.dest (bytes blob (offset + p.dest) p.count) mem k ≡ blob (offset + k)
  store-Reaches p mem k (from, to) =
      let inside : (leb p.dest k && ltb k (p.dest + p.count)) ≡ true = ground arith in
      rw (length-bytes blob (offset + p.dest) p.count, inside)
        (get_or-bytes blob (offset + p.dest) p.count (k - p.dest) (omega (arith, from, to))
          ∙ ap blob (omega (arith, from)))

  store_other :
      (p : PageRead) (mem : Memory) (k : ℕ)
      → ¬ Reaches k p
      → store p.dest (bytes blob (offset + p.dest) p.count) mem k ≡ mem k
  store_other p mem k not_there =
      let outside : (leb p.dest k && ltb k (p.dest + p.count)) ≡ false =
        ground (arith, not_there) in
      rw (length-bytes blob (offset + p.dest) p.count, outside) refl

  reaches : (k : ℕ) (p : PageRead) → Reaches k p ⊎ (¬ Reaches k p)
  reaches k p = elim (Bool-cases (leb p.dest k && ltb k (p.dest + p.count))) [
    | inl e ↦ inl (ground arith)
    | inr e ↦ inr (λ h. ground arith)
  ]

  -- A place that is right stays right, and one that a request reaches becomes right.
  filled_kept :
      (ps : List PageRead) (mem : Memory) (k : ℕ)
      → mem k ≡ blob (offset + k)
      → filled ps mem k ≡ blob (offset + k)
  filled_kept [] mem k e = e
  filled_kept (p ∷ ps) mem k e =
      filled_kept ps _ k
        (elim (reaches k p) [ inl r ↦ store-Reaches p mem k r | inr n ↦ store_other p mem k n ∙ e ])

  pub filled-Reaches :
      (ps : List PageRead) (mem : Memory) (k : ℕ)
      → Any (Reaches k) ps
      → filled ps mem k ≡ blob (offset + k)
  filled-Reaches [] mem k any = absurd any
  filled-Reaches (p ∷ ps) mem k (inl r) = filled_kept ps _ k (store-Reaches p mem k r)
  filled-Reaches (p ∷ ps) mem k (inr any) = filled-Reaches ps _ k any

  -- Beyond the buffer nothing changes.
  pub filled_outside :
      (psize : ℕ) (ps : List PageRead) (mem : Memory) (k : ℕ)
      → size ≤ k
      → All (Fits psize offset size) ps
      → filled ps mem k ≡ mem k
  filled_outside psize [] mem k le all = refl
  filled_outside psize (p ∷ ps) mem k le all =
      filled_outside psize ps _ k le all.1
      ∙ store_other p mem k (λ (from, to). ground (arith, all.0.inside))

module _ (c : Codecs) (net : Provider → PageRequest → List Buffer → Answer) (blob : ℕ → ℕ)
    (psize offset : ℕ) (vadv : List RandomSelect) where
  -- Page `j` of the range has replicas, and each of them has its bytes.
  pub record Serves (j : ℕ) : Type 0 where
    pub some_replica : 0 < length (get_or vadv j null_select).providers
    pub whole :
        All
          (Gives net provider_read
            (bytes blob ((offset / psize + j) * psize) psize)
            (c.query.encode (get_or vadv j null_select).page_key ∷ []))
          (get_or vadv j null_select).providers
    pub part :
        (start count : ℕ)
        → start + count ≤ psize
        → All
            (Gives net provider_read_partial
              (bytes blob ((offset / psize + j) * psize + start) count)
              (c.query.encode (get_or vadv j null_select).page_key
                ∷ c.word64.encode start
                ∷ c.word64.encode count
                ∷ []))
            (get_or vadv j null_select).providers

  module _ (random : ℕ → ℕ → ℕ) (size : ℕ) where
    fetch-Fits :
        (p : PageRead)
        → Fits psize offset size p
        → Serves p.index
        → let s = get_or vadv p.index null_select in
          fetch (random p.index) net (call_of p) (params_of c p s.page_key) s
          ≡ some (fetched (bytes blob (offset + p.dest) p.count))
    fetch-Fits p fits serves =
        let s = get_or vadv p.index null_select in
        elim (Bool-cases p.is_partial) [
          | inl e ↦
              rw (e, ← fits.aligned)
                (fetch_first (random p.index) net provider_read_partial
                  (bytes blob ((offset / psize + p.index) * psize + p.start) p.count)
                  (c.query.encode s.page_key
                    ∷ c.word64.encode p.start
                    ∷ c.word64.encode p.count
                    ∷ [])
                  s serves.some_replica (serves.part p.start p.count fits.in_page))
          | inr e ↦
              let (none, all) = fits.whole e in
              let at : (offset / psize + p.index) * psize ≡ offset + p.dest =
                omega (arith, fits.aligned, none) in
              rw (e, ← at, all)
                (fetch_first (random p.index) net provider_read
                  (bytes blob ((offset / psize + p.index) * psize) psize)
                  (c.query.encode s.page_key ∷ []) s serves.some_replica serves.whole)
        ]

    -- All requests of a plan.
    pub read_pages-filled :
        (ps : List PageRead) (mem : Memory)
        → All (Fits psize offset size) ps
        → All (λ p. p.index < length vadv) ps
        → ((j : ℕ) → j < length vadv → Serves j)
        → read_pages c random net vadv ps mem ≡ returned (some (filled blob offset size ps mem))
    unfolding read_pages
    read_pages-filled [] mem fits inside serves = refl
    read_pages-filled (p ∷ ps) mem (fit, fits) (lt, inside) serves =
        rw (fetch-Fits p fit (serves p.index lt), read_pages, lt→ltb p.index (length vadv) lt)
          (read_pages-filled ps _ fits inside serves)
