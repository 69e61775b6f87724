-- ===== src/Client/Fetched.antt =====
-- What getting a page comes to (`rpc_provider_callback` of client/object_handler.cpp).
use native.Mathlib.Nat.{mod-lt}
use blobseer.Client.{Answer}
use blobseer.Client.Fetches.{PageRequest, fetched, accepted, rpc_provider_callback, fetch}
use blobseer.RangeQuery.Replicas.{RandomSelect}
use blobseer.Rpc.{Buffer}
use blobseer.Structures.{Provider, Query, null_provider, is_empty_provider}
use blobseer.Prelude.{
  ℕ, zero, suc, ◌%◌, ◌<◌, ◌≡◌, refl, false, none, some, List, [], ◌∷◌, length, get_or, erase_at,
  length-erase_at, All, Any, All-get_or, arith, ◌⊎◌, inl, inr,
}

module _ {A : Type 0} where
  pub All-erase_at : (P : A → Type 0) (i : ℕ) (xs : List A) → All P xs → All P (erase_at i xs)
  All-erase_at P i [] h = tt
  All-erase_at P zero (x ∷ xs) h = h.1
  All-erase_at P (suc i) (x ∷ xs) h = (h.0, All-erase_at P i xs h.1)

  -- An element is the one at a place, or among the others.
  Any-erase_at :
      (P : A → Type 0) (i : ℕ) (xs : List A) (d : A)
      → i < length xs
      → Any P xs
      → P (get_or xs i d) ⊎ Any P (erase_at i xs)
  Any-erase_at P i [] d lt h = elim lt [ ]
  Any-erase_at P zero (x ∷ xs) d lt h = h
  Any-erase_at P (suc i) (x ∷ xs) d lt (inl h) = inr (inl h)
  Any-erase_at P (suc i) (x ∷ xs) d lt (inr h) = elim (Any-erase_at P i xs d (omega arith) h) [
    | inl here ↦ inl here
    | inr there ↦ inr (inr there)
  ]

module _ (net : Provider → PageRequest → List Buffer → Answer) (call_type : PageRequest)
    (bytes : Buffer) where
  -- A replica that has a descriptor and gives the bytes.
  abbrev pub Gives : List Buffer → Provider → Type 0
  Gives params p = (is_empty_provider p ≡ false) × (accepted (net p call_type params) ≡ some bytes)

  -- A replica that has a descriptor, and gives the bytes or an error.
  abbrev pub GivesOrFails : List Buffer → Provider → Type 0
  GivesOrFails params p =
      (is_empty_provider p ≡ false)
      × ((accepted (net p call_type params) ≡ some bytes)
          ⊎ (accepted (net p call_type params) ≡ none))

module _ (random : ℕ → ℕ) (net : Provider → PageRequest → List Buffer → Answer)
    (call_type : PageRequest) (bytes : Buffer) where
  abbrev of : List Provider → Query → RandomSelect
  of l k = record { providers = l; page_key = k }

  first_of :
      (params : List Buffer) (l : List Provider) (k : Query)
      → 0 < length l
      → All (Gives net call_type bytes params) l
      → fetch random net call_type params (of l k) ≡ some (fetched bytes)
  unfolding fetch rpc_provider_callback
  first_of params [] k pos all = elim pos [ ]
  first_of params (p ∷ ps) k pos all =
      let i = random 0 % length (p ∷ ps) in
      let inside : i < length (p ∷ ps) = mod-lt (random 0) (omega arith) in
      let (there, given) =
        All-get_or (Gives net call_type bytes params) (p ∷ ps) i null_provider inside all in
      rw (there, given, rpc_provider_callback) refl

  -- Where every replica gives the bytes, the first choice does.
  pub fetch_first :
      (params : List Buffer) (s : RandomSelect)
      → 0 < length s.providers
      → All (Gives net call_type bytes params) s.providers
      → fetch random net call_type params s ≡ some (fetched bytes)
  fetch_first params s = first_of params s.providers s.page_key

  module _ (key : Buffer) where
    -- The state of the retries: the last answer, and the replicas that are left.
    abbrev Hopeful : Answer → List Provider → Type 0
    Hopeful answer l =
        (accepted answer ≡ some bytes)
        ⊎ ((accepted answer ≡ none) × Any (Gives net call_type bytes (key ∷ [])) l)

    erase_at-Hopeful :
        (i : ℕ) (l : List Provider)
        → i < length l
        → All (GivesOrFails net call_type bytes (key ∷ [])) l
        → Any (Gives net call_type bytes (key ∷ [])) l
        → Hopeful (net (get_or l i null_provider) call_type (key ∷ [])) (erase_at i l)
    erase_at-Hopeful i l inside all any =
        elim ((All-get_or (GivesOrFails net call_type bytes (key ∷ [])) l i null_provider inside
          all).1) [
            | inl yields ↦ inl yields
            | inr fails ↦
                elim (Any-erase_at (Gives net call_type bytes (key ∷ [])) i l null_provider inside
                  any) [ inl (b, yields) ↦ inl yields | inr others ↦ inr (fails, others) ]
          ]

    retries :
        (fuel n : ℕ) (l : List Provider) (k : Query) (answer : Answer)
        → length l < fuel
        → All (GivesOrFails net call_type bytes (key ∷ [])) l
        → Hopeful answer l
        → rpc_provider_callback random net call_type key fuel n (of l k) answer
          ≡ some (fetched bytes)
    unfolding rpc_provider_callback
    retries zero n l k answer lt all found = absurd (omega arith)
    retries (suc fuel) n l k answer lt all (inl e) = rw (e, rpc_provider_callback) refl
    retries (suc fuel) n [] k answer lt all (inr (e, any)) = absurd any
    retries (suc fuel) n (p ∷ ps) k answer lt all (inr (e, any)) =
        let i = random n % length (p ∷ ps) in
        let inside : i < length (p ∷ ps) = mod-lt (random n) (omega arith) in
        let there =
          (All-get_or (GivesOrFails net call_type bytes (key ∷ [])) (p ∷ ps) i null_provider inside
            all).0 in
        rw (e, rpc_provider_callback, there)
          (retries fuel (suc n) (erase_at i (p ∷ ps)) k
            (net (get_or (p ∷ ps) i null_provider) call_type (key ∷ []))
            (omega (arith, lt, length-erase_at i (p ∷ ps) inside))
            (All-erase_at (GivesOrFails net call_type bytes (key ∷ [])) i (p ∷ ps) all)
            (erase_at-Hopeful i (p ∷ ps) inside all any))

    found_of :
        (l : List Provider) (k : Query)
        → All (GivesOrFails net call_type bytes (key ∷ [])) l
        → Any (Gives net call_type bytes (key ∷ [])) l
        → fetch random net call_type (key ∷ []) (of l k) ≡ some (fetched bytes)
    unfolding fetch
    found_of [] k all any = absurd any
    found_of (p ∷ ps) k all any =
        let i = random 0 % length (p ∷ ps) in
        let inside : i < length (p ∷ ps) = mod-lt (random 0) (omega arith) in
        let there =
          (All-get_or (GivesOrFails net call_type bytes (key ∷ [])) (p ∷ ps) i null_provider inside
            all).0 in
        rw there (
          retries (suc (length (erase_at i (p ∷ ps)))) 1 (erase_at i (p ∷ ps)) k
            (net (get_or (p ∷ ps) i null_provider) call_type (key ∷ [])) (omega arith)
            (All-erase_at (GivesOrFails net call_type bytes (key ∷ [])) i (p ∷ ps) all)
            (erase_at-Hopeful i (p ∷ ps) inside all any))

    -- The reading of a whole page ends with its bytes, whatever the random choices are, if one of
    -- its replicas gives them and every other gives them or fails; no replica is the empty one.
    pub fetch_found :
        (s : RandomSelect)
        → All (GivesOrFails net call_type bytes (key ∷ [])) s.providers
        → Any (Gives net call_type bytes (key ∷ [])) s.providers
        → fetch random net call_type (key ∷ []) s ≡ some (fetched bytes)
    fetch_found s = found_of s.providers s.page_key
