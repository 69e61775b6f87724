-- ===== src/Prelude/Map.antt =====
-- Unordered maps as association lists over keys with decidable equality: `find`, `insert` (which
-- keeps an entry that is there), an update through an iterator, and `erase`.
use mathlib.Core.Path.{◌≡◌, refl}
use mathlib.Core.List.{List, [], ◌∷◌}
use mathlib.Core.Logic.{◌≢◌, ite}
use mathlib.Core.Option.{Option, none, some}
use native.Mathlib.Omega.{arith}

module _ {ℓ} {K V : Type ℓ} (dec : Discrete K) where
  unfoldable pub find : K → List (K × V) → Option V
  find k [] = none
  find k ((j, v) ∷ m) = ite (dec j k) (some v) (find k m)

  -- `m[k] = v` through an iterator found before.
  unfoldable pub update : K → V → List (K × V) → List (K × V)
  update k v [] = []
  update k v ((j, w) ∷ m) = ite (dec j k) ((j, v) ∷ m) ((j, w) ∷ update k v m)

  unfoldable pub erase : K → List (K × V) → List (K × V)
  erase k [] = []
  erase k ((j, w) ∷ m) = ite (dec j k) (erase k m) ((j, w) ∷ erase k m)

  unfoldable pub insert : K → V → List (K × V) → List (K × V)
  insert k v [] = (k, v) ∷ []
  insert k v ((j, w) ∷ m) = ite (dec j k) ((j, w) ∷ m) ((j, w) ∷ insert k v m)

  pub find-update_self :
      (k : K) (v w : V) (m : List (K × V)) → find k m ≡ some w → find k (update k v m) ≡ some v
  unfolding find update
  find-update_self k v w [] h = ground arith
  find-update_self k v w ((j, x) ∷ m) h = ground (arith, find-update_self k v w m)

  pub find-update_ne :
      (k q : K) (v : V) (m : List (K × V)) → q ≢ k → find q (update k v m) ≡ find q m
  unfolding find update
  find-update_ne k q v [] h = refl
  find-update_ne k q v ((j, x) ∷ m) h = ground (arith, find-update_ne k q v m)

  pub find-erase_self : (k : K) (m : List (K × V)) → find k (erase k m) ≡ none
  unfolding find erase
  find-erase_self k [] = refl
  find-erase_self k ((j, x) ∷ m) = ground (arith, find-erase_self k m)

  pub find-erase_ne : (k q : K) (m : List (K × V)) → q ≢ k → find q (erase k m) ≡ find q m
  unfolding find erase
  find-erase_ne k q [] h = refl
  find-erase_ne k q ((j, x) ∷ m) h = ground (arith, find-erase_ne k q m)

  pub find-insert_self :
      (k : K) (v : V) (m : List (K × V)) → find k m ≡ none → find k (insert k v m) ≡ some v
  unfolding find insert
  find-insert_self k v [] h = ground arith
  find-insert_self k v ((j, x) ∷ m) h = ground (arith, find-insert_self k v m)

  pub find-insert_ne :
      (k q : K) (v : V) (m : List (K × V)) → q ≢ k → find q (insert k v m) ≡ find q m
  unfolding find insert
  find-insert_ne k q v [] h = ground arith
  find-insert_ne k q v ((j, x) ∷ m) h = ground (arith, find-insert_ne k q v m)

  -- An insertion hides no entry that is there.
  pub find-insert_other :
      (k q : K) (v w : V) (m : List (K × V)) → find q m ≡ some w → find q (insert k v m) ≡ some w
  unfolding find insert
  find-insert_other k q v w [] h = ground arith
  find-insert_other k q v w ((j, x) ∷ m) h = ground (arith, find-insert_other k q v w m)
