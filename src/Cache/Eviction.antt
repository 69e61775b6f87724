-- ===== src/Cache/Eviction.antt =====
-- The eviction policies of common/cache_mt.hpp: what `cache_mt` calls of one, and the laws of a
-- policy that is a queue of keys.
use blobseer.Prelude.{◌≡◌, ite, Option, none, some, List, [], ◌∷◌, ◌++◌}

-- The operations that the cache calls. `evict_entry` is `none` where the code answers false.
pub record Policy (K : Type 0) : Type 1 where
  pub State : Type 0
  pub hit : K → State → State
  pub miss : K → State → State
  pub evict_entry : State → Option (K × State)
  pub clear : State → State
  pub invalidate : K → State → State

-- `cache_mt_none`: it keeps nothing and evicts nothing.
abbrev pub no_policy : (K : Type 0) → Policy K
no_policy K = record {
  State = Unit;
  hit = λ k s. s;
  miss = λ k s. s;
  evict_entry = λ s. none;
  clear = λ s. s;
  invalidate = λ k s. s;
}

module _ {K : Type 0} (dec : Discrete K) where
  -- The keys without `k`.
  unfoldable pub forget : K → List K → List K
  forget k [] = []
  forget k (j ∷ js) = ite (dec j k) (forget k js) (j ∷ forget k js)

  -- A policy whose state stands for a queue of keys without repetition: a hit moves the key to the
  -- back, and the front is evicted.
  pub record IsQueue (p : Policy K) : Type 1 where
    pub Inv : p.State → Type 0
    pub order : p.State → List K
    pub order-hit :
        (k : K) (s : p.State)
        → Inv s
        → Inv (p.hit k s) × (order (p.hit k s) ≡ forget k (order s) ++ k ∷ [])
    pub order-miss :
        (k : K) (s : p.State) → Inv s → Inv (p.miss k s) × (order (p.miss k s) ≡ order s)
    pub order-invalidate :
        (k : K) (s : p.State)
        → Inv s
        → Inv (p.invalidate k s) × (order (p.invalidate k s) ≡ forget k (order s))
    pub order-clear : (s : p.State) → Inv (p.clear s) × (order (p.clear s) ≡ [])
    pub evict_empty : (s : p.State) → Inv s → order s ≡ [] → p.evict_entry s ≡ none
    pub evict_front :
        (s : p.State) (k : K) (ks : List K)
        → Inv s
        → order s ≡ k ∷ ks
        → (s' : p.State) × (p.evict_entry s ≡ some (k, s')) × Inv s' × (order s' ≡ ks)
