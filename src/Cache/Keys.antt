-- ===== src/Cache/Keys.antt =====
-- Queues of keys and maps without repetition: what `forget`, `erase` and `insert` leave, and how
-- many entries.
use mathlib.Core.Logic.{if_pos}
use blobseer.Cache.Eviction.{forget}
use blobseer.Prelude.Map.{find, insert, erase}
use blobseer.Prelude.{
  ℕ, suc, ◌+◌, ◌≡◌, ◌∙◌, refl, ite, Bool, true, false, Option, none, some, List, [], ◌∷◌, ◌++◌,
  length, arith,
}

abbrev pub is_some : {A : Type 0} → Option A → Bool
is_some none = false
is_some (some a) = true

abbrev pub one_if : Bool → ℕ
one_if true = 1
one_if false = 0

module _ {K : Type 0} (dec : Discrete K) where
  unfoldable pub has : K → List K → Bool
  has k [] = false
  has k (j ∷ js) = ite (dec j k) true (has k js)

  -- No key twice.
  abbrev pub Once : List K → Type 0
  Once [] = Unit
  Once (k ∷ ks) = (has k ks ≡ false) × Once ks

  pub has-forget :
      (j k : K) (ks : List K) → has j (forget dec k ks) ≡ ite (dec j k) false (has j ks)
  unfolding has forget
  has-forget j k [] = ground arith
  has-forget j k (x ∷ ks) = ground (arith, has-forget j k ks)

  pub has-append : (j k : K) (ks : List K) → has j (ks ++ k ∷ []) ≡ ite (dec j k) true (has j ks)
  unfolding has
  has-append j k [] = ground arith
  has-append j k (x ∷ ks) = ground (arith, has-append j k ks)

  pub forget_absent : (k : K) (ks : List K) → has k ks ≡ false → forget dec k ks ≡ ks
  unfolding has forget
  forget_absent k [] h = refl
  forget_absent k (x ∷ ks) h = ground (arith, forget_absent k ks)

  pub length-forget :
      (k : K) (ks : List K) → Once ks → length (forget dec k ks) + one_if (has k ks) ≡ length ks
  unfolding has forget
  length-forget k [] o = omega arith
  length-forget k (x ∷ ks) o = ground (arith, length-forget k ks o.1, forget_absent k ks)

  pub Once-forget : (k : K) (ks : List K) → Once ks → Once (forget dec k ks)
  unfolding forget
  Once-forget k [] o = tt
  Once-forget k (x ∷ ks) o = ground (arith, Once-forget k ks o.1, has-forget x k ks)

  pub Once-append : (k : K) (ks : List K) → has k ks ≡ false → Once ks → Once (ks ++ k ∷ [])
  unfolding has
  Once-append k [] h o = (refl, tt)
  Once-append k (x ∷ ks) h o = ground (arith, Once-append k ks, has-append x k ks)

  pub hit_keys :
      (j k : K) (ks : List K) → has j (forget dec k ks ++ k ∷ []) ≡ ite (dec j k) true (has j ks)
  hit_keys j k ks = ground (arith, has-append j k (forget dec k ks), has-forget j k ks)

  pub Once-hit : (k : K) (ks : List K) → Once ks → Once (forget dec k ks ++ k ∷ [])
  Once-hit k ks o =
      Once-append k (forget dec k ks) (has-forget k k ks ∙ if_pos (dec k k) refl _ _)
        (Once-forget k ks o)

  module _ {V : Type 0} where
    abbrev pub Unique : List (K × V) → Type 0
    Unique [] = Unit
    Unique ((k, v) ∷ m) = (find dec k m ≡ none) × Unique m

    pub find-erase :
        (j k : K) (m : List (K × V))
        → find dec j (erase dec k m) ≡ ite (dec j k) none (find dec j m)
    unfolding find erase
    find-erase j k [] = ground arith
    find-erase j k ((x, v) ∷ m) = ground (arith, find-erase j k m)

    pub find-insert :
        (j k : K) (v : V) (m : List (K × V))
        → find dec k m ≡ none
        → find dec j (insert dec k v m) ≡ ite (dec j k) (some v) (find dec j m)
    unfolding find insert
    find-insert j k v [] h = ground arith
    find-insert j k v ((x, w) ∷ m) h = ground (arith, find-insert j k v m)

    pub erase_absent : (k : K) (m : List (K × V)) → find dec k m ≡ none → erase dec k m ≡ m
    unfolding find erase
    erase_absent k [] h = refl
    erase_absent k ((x, v) ∷ m) h = ground (arith, erase_absent k m)

    pub length-erase :
        (k : K) (m : List (K × V))
        → Unique m
        → length (erase dec k m) + one_if (is_some (find dec k m)) ≡ length m
    unfolding find erase
    length-erase k [] u = omega arith
    length-erase k ((x, v) ∷ m) u = ground (arith, length-erase k m u.1, erase_absent k m)

    pub length-insert :
        (k : K) (v : V) (m : List (K × V))
        → find dec k m ≡ none
        → length (insert dec k v m) ≡ suc (length m)
    unfolding find insert
    length-insert k v [] h = omega arith
    length-insert k v ((x, w) ∷ m) h = ground (arith, length-insert k v m)

    pub Unique-erase : (k : K) (m : List (K × V)) → Unique m → Unique (erase dec k m)
    unfolding erase
    Unique-erase k [] u = tt
    Unique-erase k ((x, v) ∷ m) u = ground (arith, Unique-erase k m u.1, find-erase x k m)

    pub Unique-insert :
        (k : K) (v : V) (m : List (K × V))
        → find dec k m ≡ none
        → Unique m
        → Unique (insert dec k v m)
    unfolding find insert
    Unique-insert k v [] h u = (refl, tt)
    Unique-insert k v ((x, w) ∷ m) h u = ground (arith, Unique-insert k v m, find-insert x k v m)
