-- ===== src/Cache/Lru/Queue.antt =====
-- The consistency of the linked list and the hash map of `cache_mt_LRU` (common/cache_mt.hpp).
use blobseer.Cache.Eviction.{forget}
use blobseer.Cache.Lru.{Lru, erase_node}
use blobseer.Prelude.Map.{find}
use blobseer.Prelude.{
  ℕ, suc, ◌≤◌, ◌≡◌, refl, ◌≢◌, ite, Option, none, some, List, [], ◌∷◌, ◌++◌, map, arith,
}

-- The numbers of the nodes rise along the list and lie between the two bounds.
abbrev pub Rising : {K : Type 0} → ℕ → List (ℕ × K) → ℕ → Type 0
Rising low [] high = low ≤ high
Rising low ((i, k) ∷ q) high = (low ≤ i) × Rising (suc i) q high

abbrev pub order : {K : Type 0} → Lru K → List K
order s = map (λ e. e.1) s.queue

Rising-le : {K : Type 0} (low high : ℕ) (q : List (ℕ × K)) → Rising low q high → low ≤ high
Rising-le low high [] h = h
Rising-le low high ((i, k) ∷ q) h = omega (arith, Rising-le (suc i) high q h.1)

Rising-lower :
    {K : Type 0} (low low' high : ℕ) (q : List (ℕ × K))
    → low' ≤ low
    → Rising low q high
    → Rising low' q high
Rising-lower low low' high [] le h = omega arith
Rising-lower low low' high ((i, k) ∷ q) le h = (omega arith, h.1)

pub Rising-erase :
    {K : Type 0} (i low high : ℕ) (q : List (ℕ × K))
    → Rising low q high
    → Rising low (erase_node i q) high
unfolding erase_node
Rising-erase i low high [] h = h
Rising-erase i low high ((j, k) ∷ q) h =
    ground
      (arith, Rising-erase i (suc j) high q h.1, Rising-lower (suc j) low high q (omega arith) h.1)

pub Rising-append :
    {K : Type 0} (low high : ℕ) (k : K) (q : List (ℕ × K))
    → Rising low q high
    → Rising low (q ++ (high, k) ∷ []) (suc high)
Rising-append low high k [] h = (h, omega arith)
Rising-append low high k ((i, j) ∷ q) h = (h.0, Rising-append (suc i) high k q h.1)

module _ {K : Type 0} (dec : Discrete K) where
  -- The node of a key.
  unfoldable pub node_of : K → List (ℕ × K) → Option ℕ
  node_of k [] = none
  node_of k ((i, j) ∷ q) = ite (dec j k) (some i) (node_of k q)

  abbrev pub Distinct : List (ℕ × K) → Type 0
  Distinct [] = Unit
  Distinct ((i, k) ∷ q) = (node_of k q ≡ none) × Distinct q

  node_of-Rising :
      (k : K) (i low high : ℕ) (q : List (ℕ × K))
      → Rising low q high
      → node_of k q ≡ some i
      → low ≤ i
  unfolding node_of
  node_of-Rising k i low high [] h e = absurd (ground arith)
  node_of-Rising k i low high ((j, x) ∷ q) h e =
      ground (arith, node_of-Rising k i (suc j) high q h.1)

  pub forget_absent :
      (k : K) (q : List (ℕ × K))
      → node_of k q ≡ none
      → forget dec k (map (λ e. e.1) q) ≡ map (λ e. e.1) q
  unfolding node_of forget
  forget_absent k [] e = refl
  forget_absent k ((j, x) ∷ q) e = ground (arith, forget_absent k q)

  -- To erase the node of a key is to forget the key.
  pub erase_node-forget :
      (k : K) (i low high : ℕ) (q : List (ℕ × K))
      → Rising low q high
      → Distinct q
      → node_of k q ≡ some i
      → map (λ e. e.1) (erase_node i q) ≡ forget dec k (map (λ e. e.1) q)
  unfolding node_of forget erase_node
  erase_node-forget k i low high [] h d e = absurd (ground arith)
  erase_node-forget k i low high ((j, x) ∷ q) h d e = ground (
    arith,
    erase_node-forget k i (suc j) high q h.1 d.1,
    node_of-Rising k i (suc j) high q h.1,
    forget_absent k q,
  )

  pub node_of-erase_self :
      (k : K) (i low high : ℕ) (q : List (ℕ × K))
      → Rising low q high
      → Distinct q
      → node_of k q ≡ some i
      → node_of k (erase_node i q) ≡ none
  unfolding node_of erase_node
  node_of-erase_self k i low high [] h d e = refl
  node_of-erase_self k i low high ((j, x) ∷ q) h d e =
      ground (
        arith,
        node_of-erase_self k i (suc j) high q h.1 d.1,
        node_of-Rising k i (suc j) high q h.1,
      )

  pub node_of-erase_ne :
      (k m : K) (i low high : ℕ) (q : List (ℕ × K))
      → Rising low q high
      → node_of k q ≡ some i
      → m ≢ k
      → node_of m (erase_node i q) ≡ node_of m q
  unfolding node_of erase_node
  node_of-erase_ne k m i low high [] h e ne = refl
  node_of-erase_ne k m i low high ((j, x) ∷ q) h e ne =
      ground
        (arith, node_of-erase_ne k m i (suc j) high q h.1, node_of-Rising k i (suc j) high q h.1)

  node_of-erase_none :
      (m : K) (i : ℕ) (q : List (ℕ × K)) → node_of m q ≡ none → node_of m (erase_node i q) ≡ none
  unfolding node_of erase_node
  node_of-erase_none m i [] e = refl
  node_of-erase_none m i ((j, x) ∷ q) e = ground (arith, node_of-erase_none m i q)

  pub Distinct-erase : (i : ℕ) (q : List (ℕ × K)) → Distinct q → Distinct (erase_node i q)
  unfolding erase_node
  Distinct-erase i [] d = tt
  Distinct-erase i ((j, x) ∷ q) d =
      ground (arith, Distinct-erase i q d.1, node_of-erase_none x i q d.0)

  pub node_of-append :
      (m k : K) (n : ℕ) (q : List (ℕ × K))
      → node_of k q ≡ none
      → node_of m (q ++ (n, k) ∷ []) ≡ ite (dec m k) (some n) (node_of m q)
  unfolding node_of
  node_of-append m k n [] e = ground arith
  node_of-append m k n ((j, x) ∷ q) e = ground (arith, node_of-append m k n q)

  pub Distinct-append :
      (k : K) (n : ℕ) (q : List (ℕ × K))
      → node_of k q ≡ none
      → Distinct q
      → Distinct (q ++ (n, k) ∷ [])
  unfolding node_of
  Distinct-append k n [] e d = (refl, tt)
  Distinct-append k n ((j, x) ∷ q) e d =
      ground (arith, Distinct-append k n q, node_of-append x k n q)

  pub record Linked (s : Lru K) : Type 0 where
    pub rising : Rising 0 s.queue s.next_node
    pub distinct : Distinct s.queue
    pub indexed : (k : K) → find dec k s.access_count ≡ node_of k s.queue
