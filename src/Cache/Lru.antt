-- ===== src/Cache/Lru.antt =====
-- `cache_mt_LRU` of common/cache_mt.hpp: a linked list of keys and a hash map from a key to its
-- node. A node is named by a number; a new node takes the next one.
use blobseer.Prelude.Map.{find, insert, erase}
pub mod Queue
pub mod Laws
use blobseer.Cache.Eviction.{Policy}
use blobseer.Prelude.{
  ℕ, suc, ◌≡◌, ite, Option, none, some, List, [], ◌∷◌, ◌++◌, ◌==◌, if◌then◌else◌,
}

pub record Lru (K : Type 0) : Type 0 where
  pub queue : List (ℕ × K)
  pub access_count : List (K × ℕ)
  pub next_node : ℕ

abbrev pub empty : {K : Type 0} → Lru K
empty = record { queue = []; access_count = []; next_node = 0 }

-- `queue.erase(iterator)`.
unfoldable pub erase_node : {K : Type 0} → ℕ → List (ℕ × K) → List (ℕ × K)
erase_node i [] = []
erase_node i ((j, k) ∷ q) = if j == i then q else (j, k) ∷ erase_node i q

module _ {K : Type 0} (dec : Discrete K) where
  unfoldable pub invalidate : K → Lru K → Lru K
  invalidate k s = elim (find dec k s.access_count) [
    | none ↦ s
    | some i ↦ record s { queue = erase_node i s.queue; access_count = erase dec k s.access_count }
  ]

  abbrev pub push_back : K → Lru K → Lru K
  push_back k s = record {
    queue = s.queue ++ (s.next_node, k) ∷ [];
    access_count = insert dec k s.next_node s.access_count;
    next_node = suc s.next_node;
  }

  unfoldable pub hit : K → Lru K → Lru K
  hit k s = push_back k (invalidate k s)

  unfoldable pub evict_entry : Lru K → Option (K × Lru K)
  evict_entry s = elim s.queue [ [] ↦ none | e ∷ rest ↦ some (e.1, invalidate e.1 s) ]

  unfoldable pub clear : Lru K → Lru K
  clear s = record s { queue = []; access_count = [] }

  abbrev pub lru : Policy K
  lru = record {
    State = Lru K;
    hit = hit;
    miss = λ k s. s;
    evict_entry = evict_entry;
    clear = clear;
    invalidate = invalidate;
  }
