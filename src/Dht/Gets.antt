-- ===== src/Dht/Gets.antt =====
-- A get that waits for its answers (common/simple_dht.hpp).
use native.Mathlib.Nat.{mod-lt}
use blobseer.Dht.{
  Dht, Gateway, PendingGet, got, choose_gateway, at_gateway, get, handle_get_callback, each_empty,
  each_answer, handle_get_callbacks, take_gets, past, answered, wait_gets,
}
use blobseer.Rpc.{Buffer}
use blobseer.Rpc.Status
use blobseer.Prelude.{
  ℕ, zero, suc, ◌+◌, ◌<◌, ◌≡◌, refl, ap, sym, ◌∙◌, Bool, false, ◌||◌, Option, none, some, List, [],
  ◌∷◌, ◌++◌, length, All, ◌==◌, if◌then◌else◌, arith, Bool-cases, inl, inr,
}

-- An answer with which the attempts end: the page, or that there is none.
abbrev pub settled : ℕ → Bool
settled error = error == Status.ok || error == Status.eobj

-- The value that an answer gives to one get: the empty buffer unless it has exactly one value.
abbrev pub sole : List Buffer → Buffer
sole (v ∷ []) = v
sole _ = []

-- The value of the first answer that settles the get, and the empty buffer if none does.
unfoldable pub first_settled : List (ℕ × List Buffer) → Buffer
first_settled [] = []
first_settled ((error, result) ∷ answers) =
    if settled error then sole result else first_settled answers

none_settled : (answers : List (ℕ × List Buffer)) → length answers ≡ 0 → first_settled answers ≡ []
unfolding first_settled
none_settled [] h = refl
none_settled (a ∷ answers) h = absurd (omega arith)

module _ {C : Type 0} where
  -- No get is queued at the gateway.
  abbrev pub NoGets : Gateway C → Type 0
  NoGets g = (g.pending_gets ≡ []) × (g.get_callbacks ≡ [])

  -- The get is queued at the gateway.
  abbrev queue_get : PendingGet C → Gateway C → Gateway C
  queue_get p g = record g {
    pending_gets = g.pending_gets ++ p.key ∷ [];
    get_callbacks = g.get_callbacks ++ p ∷ [];
  }

  abbrev taken :
      List (PendingGet C) → List (Gateway C) → Option (List (PendingGet C) × List (Gateway C))
  taken gets gs = some (gets, gs)

  first_empty :
      (g : Gateway C) (gs : List (Gateway C))
      → g.pending_gets ≡ []
      → take_gets (g ∷ gs) ≡ past g (take_gets gs)
  unfolding take_gets
  first_empty g gs e = go g.pending_gets e
    where
      go :
          (ks : List Buffer)
          → ks ≡ []
          → elim ks [
            | [] ↦ past g (take_gets gs)
            | k ∷ ks ↦
                taken g.get_callbacks (record g { pending_gets = []; get_callbacks = [] } ∷ gs)
          ]
            ≡ past g (take_gets gs)
      go [] e = refl
      go (k ∷ ks) e = absurd cc

  take_gets-none : (gs : List (Gateway C)) → All NoGets gs → take_gets gs ≡ none
  unfolding take_gets
  take_gets-none [] h = refl
  take_gets-none (g ∷ gs) h = first_empty g gs h.0.0 ∙ ap (past g) (take_gets-none gs h.1)

  -- The one get that is queued is taken, and leaves the gateways as they were.
  take_gets-queue_get :
      (p : PendingGet C) (i : ℕ) (gs : List (Gateway C))
      → All NoGets gs
      → i < length gs
      → take_gets (at_gateway i (queue_get p) gs) ≡ taken (p ∷ []) gs
  unfolding take_gets
  take_gets-queue_get p i [] h lt = elim lt [ ]
  take_gets-queue_get p zero (g ∷ gs) h lt =
      go g.pending_gets g.get_callbacks h.0.0 h.0.1 ∙ ap (λ t. taken (p ∷ []) (t ∷ gs)) cleared
    where
      cleared : record g { pending_gets = []; get_callbacks = [] } ≡ g
      cleared = λ i. record g { pending_gets = (sym h.0.0) i; get_callbacks = (sym h.0.1) i }

      go :
          (ks : List Buffer) (cs : List (PendingGet C))
          → ks ≡ []
          → cs ≡ []
          → elim (ks ++ p.key ∷ []) [
            | [] ↦ past (queue_get p g) (take_gets gs)
            | k ∷ ks ↦
                taken (cs ++ p ∷ []) (record g { pending_gets = []; get_callbacks = [] } ∷ gs)
          ]
            ≡ taken (p ∷ []) (record g { pending_gets = []; get_callbacks = [] } ∷ gs)
      go [] cs e f =
          ap (λ t. taken (t ++ p ∷ []) (record g { pending_gets = []; get_callbacks = [] } ∷ gs)) f
      go (k ∷ ks) cs e f = absurd cc
  take_gets-queue_get p (suc i) (g ∷ gs) h lt =
      first_empty g (at_gateway i (queue_get p) gs) h.0.0
      ∙ ap (past g) (take_gets-queue_get p i gs h.1 (omega arith))

  one_get :
      (p : PendingGet C) (error : ℕ) (result : List Buffer) (d : Dht C)
      → handle_get_callbacks (p ∷ []) error result d ≡ handle_get_callback p error (sole result) d
  unfolding handle_get_callbacks each_empty each_answer
  one_get p error [] d = refl
  one_get p error (v ∷ []) d = refl
  one_get p error (v ∷ w ∷ result) d =
      let more : (length (p ∷ []) == length (v ∷ w ∷ result)) ≡ false = ground arith in rw more refl

  idle :
      (answers : List (ℕ × List Buffer)) (d : Dht C)
      → All NoGets d.gateways
      → wait_gets answers d ≡ d
  unfolding wait_gets
  idle [] d h = refl
  idle ((error, result) ∷ answers) d h = rw (take_gets-none d.gateways h) (idle answers d h)

  module _ (key : Buffer) (callback : C) (d : Dht C) (h : All NoGets d.gateways)
      (some_gateway : 0 < length d.gateways) where
    abbrev attempt_no : ℕ → PendingGet C
    attempt_no n = record { attempt = n; key = key; get_callback = callback }

    -- The answer comes back to the attempt that was queued.
    one_answer :
        (n error : ℕ) (result : List Buffer) (answers : List (ℕ × List Buffer))
        → wait_gets ((error, result) ∷ answers) (get key callback n d)
          ≡ wait_gets answers (handle_get_callback (attempt_no n) error (sole result) d)
    unfolding wait_gets get choose_gateway
    one_answer n error result answers =
        let i = choose_gateway d key n in
        let inside : i < length d.gateways = mod-lt _ some_gateway in
        ap (λ t. wait_gets answers (answered error result (get key callback n d) t))
          (take_gets-queue_get (attempt_no n) i d.gateways h inside)
        ∙ ap (wait_gets answers) (one_get (attempt_no n) error result d)

    attempts :
        (answers : List (ℕ × List Buffer)) (n : ℕ)
        → n < d.replication
        → n + length answers ≡ d.replication
        → (wait_gets answers (get key callback n d)).calls
          ≡ d.calls ++ got callback (first_settled answers) ∷ []
    unfolding first_settled handle_get_callback
    attempts [] n lt all = absurd (omega arith)
    attempts ((error, result) ∷ answers) n lt all =
        ap (λ t. t.calls) (one_answer n error result answers) ∙ (elim (Bool-cases (settled error)) [
          | inl done ↦
              rw (done, handle_get_callback, first_settled)
                (ap (λ t. t.calls)
                  (idle answers (record d { calls = d.calls ++ got callback (sole result) ∷ [] })
                    h))
          | inr fails ↦ elim (Bool-cases (n + 1 == d.replication)) [
            | inl last ↦
                let over = none_settled answers (ground (arith, all, last)) in
                rw (fails, last, over, handle_get_callback)
                  (ap (λ t. t.calls)
                    (idle answers (record d { calls = d.calls ++ got callback [] ∷ [] }) h))
            | inr more ↦
                rw (fails, more, handle_get_callback)
                  (attempts answers (n + 1) (ground (arith, all, lt, more)) (omega (arith, all)))
          ]
        ])

  -- A get calls its client once, whatever the replicas answer, where no other get is queued: with
  -- the value of the first answer that is `ok` or `eobj`, and with the empty buffer if every replica
  -- fails in another way. An answer without exactly one value counts as the empty buffer. This for
  -- at least one gateway and one replica, and an answer for each replica.
  pub get_answers_lem :
      (key : Buffer) (callback : C) (answers : List (ℕ × List Buffer)) (d : Dht C)
      → All NoGets d.gateways
      → 0 < length d.gateways
      → 0 < d.replication
      → length answers ≡ d.replication
      → (wait_gets answers (get key callback 0 d)).calls
        ≡ d.calls ++ got callback (first_settled answers) ∷ []
  get_answers_lem key callback answers d h some_gateway pos all =
      attempts key callback d h some_gateway answers 0 pos (omega (arith, all))
