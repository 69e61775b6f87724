-- ===== src/Dht.antt =====
-- common/simple_dht.hpp: the hash table over the providers. A callback of the client is named by a
-- value, and the calls made to it are recorded in order. The counter that the callbacks of one put
-- share is a cell of a store. Of `wait` the gets are here, each answered before the next is sent.
pub mod Puts
pub mod Gets
use Prim.Native.String.{String}
use blobseer.Rpc.{Buffer}
use blobseer.Rpc.Status
use blobseer.Prelude.{
  ℕ, zero, suc, ◌+◌, ◌-◌, ◌*◌, ◌/◌, ◌%◌, ◌^◌, Bool, true, false, ◌||◌, Option, none, some, List, [],
  ◌∷◌, ◌++◌, length, get_or, u32, ltb, ◌==◌, if◌then◌else◌,
}

-- `bind(handle_get_callback, i, key, get_callback)`.
pub record PendingGet (C : Type 0) : Type 0 where
  pub attempt : ℕ
  pub key : Buffer
  pub get_callback : C

-- `bind(handle_put_callback, status, put_callback)`, with the number of the status cell.
pub record PendingPut (C : Type 0) : Type 0 where
  pub status : ℕ
  pub put_callback : C

pub record Gateway (C : Type 0) : Type 0 where
  pub host : String
  pub service : String
  pub pending_gets : List Buffer
  pub pending_puts : List Buffer
  pub get_callbacks : List (PendingGet C)
  pub put_callbacks : List (PendingPut C)

pub data Call (C : Type 0) : Type 0 where
  got : C → Buffer → Call C
  put_done : C → ℕ → Call C

pub record Dht (C : Type 0) : Type 0 where
  pub gateways : List (Gateway C)
  pub replication : ℕ
  pub statuses : List ℕ
  pub calls : List (Call C)

-- The sdbm hash of a key, on 32 bits.
abbrev pub sdbm : ℕ → Buffer → ℕ
sdbm hash [] = hash
sdbm hash (k ∷ key) = sdbm ((k + hash * 2 ^ 6 + hash * 2 ^ 16 + u32 - hash) % u32) key

-- The status after an answer: the good answers in the low half, all answers in the high half.
unfoldable pub count_answer : ℕ → ℕ → ℕ
count_answer error status = ((if error == Status.ok then status + 1 else status) + 2 ^ 16) % u32

-- What the client is told after an answer, if it is the last.
unfoldable pub verdict : ℕ → ℕ → Option ℕ
verdict replication status =
    if status / 2 ^ 16 == replication
    then some (if ltb 0 (status % 2 ^ 16) then Status.ok else Status.eobj)
    else none

abbrev pub set_status : ℕ → ℕ → List ℕ → List ℕ
set_status i v [] = []
set_status zero v (x ∷ xs) = v ∷ xs
set_status (suc i) v (x ∷ xs) = x ∷ set_status i v xs

module _ {C : Type 0} where
  unfoldable pub choose_gateway : Dht C → Buffer → ℕ → ℕ
  choose_gateway d key n = sdbm n key % length (d.gateways)

  unfoldable pub add_gateway : String → String → Dht C → Dht C
  add_gateway host service d = record d {
    gateways =
        d.gateways
        ++ record {
          host = host;
          service = service;
          pending_gets = [];
          pending_puts = [];
          get_callbacks = [];
          put_callbacks = [];
        }
          ∷ [];
  }

  -- A change of the gateway with a number.
  abbrev pub at_gateway : ℕ → (Gateway C → Gateway C) → List (Gateway C) → List (Gateway C)
  at_gateway i f [] = []
  at_gateway zero f (g ∷ gs) = f g ∷ gs
  at_gateway (suc i) f (g ∷ gs) = g ∷ at_gateway i f gs

  unfoldable pub get : Buffer → C → ℕ → Dht C → Dht C
  get key callback n d = record d {
    gateways =
        at_gateway (choose_gateway d key n)
          (λ g. record g {
            pending_gets = g.pending_gets ++ key ∷ [];
            get_callbacks =
                g.get_callbacks ++ record { attempt = n; key = key; get_callback = callback } ∷ [];
          })
          d.gateways;
  }

  -- The loop of `put` from the replica `i` on.
  unfoldable pub put_replicas : ℕ → ℕ → ℕ → Buffer → Buffer → C → Dht C → Dht C
  put_replicas zero i status key value callback d = d
  put_replicas (suc left) i status key value callback d =
      put_replicas left (suc i) status key value callback (record d {
        gateways =
            at_gateway (choose_gateway d key i)
              (λ g. record g {
                pending_puts = g.pending_puts ++ key ∷ value ∷ [];
                put_callbacks =
                    g.put_callbacks ++ record { status = status; put_callback = callback } ∷ [];
              })
              d.gateways;
      })

  unfoldable pub put : Buffer → Buffer → C → Dht C → Dht C
  put key value callback d =
      put_replicas d.replication 0 (length d.statuses) key value callback
        (record d { statuses = d.statuses ++ 0 ∷ [] })

  abbrev pub told : C → Option ℕ → List (Call C)
  told callback none = []
  told callback (some code) = put_done callback code ∷ []

  unfoldable pub handle_put_callback : PendingPut C → ℕ → Dht C → Dht C
  handle_put_callback p error d =
      let status = count_answer error (get_or d.statuses p.status 0) in
      record d {
        statuses = set_status p.status status d.statuses;
        calls = d.calls ++ told p.put_callback (verdict d.replication status);
      }

  unfoldable pub handle_put_callbacks : List (PendingPut C) → ℕ → Dht C → Dht C
  handle_put_callbacks [] error d = d
  handle_put_callbacks (p ∷ ps) error d =
      handle_put_callbacks ps error (handle_put_callback p error d)

  unfoldable pub handle_get_callback : PendingGet C → ℕ → Buffer → Dht C → Dht C
  handle_get_callback p error val d =
      if error == Status.ok || error == Status.eobj
      then record d { calls = d.calls ++ got p.get_callback val ∷ [] }
      else if p.attempt + 1 == d.replication
      then record d { calls = d.calls ++ got p.get_callback [] ∷ [] }
      else get p.key p.get_callback (p.attempt + 1) d

  -- The two loops of `handle_get_callbacks`.
  unfoldable pub each_empty : List (PendingGet C) → ℕ → Dht C → Dht C
  each_empty [] error d = d
  each_empty (p ∷ ps) error d = each_empty ps error (handle_get_callback p error [] d)

  unfoldable pub each_answer : List (PendingGet C) → List Buffer → ℕ → Dht C → Dht C
  each_answer (p ∷ ps) (v ∷ vs) error d = each_answer ps vs error (handle_get_callback p error v d)
  each_answer ps vs error d = d

  unfoldable pub handle_get_callbacks : List (PendingGet C) → ℕ → List Buffer → Dht C → Dht C
  handle_get_callbacks gets error result d =
      if length gets == length result
      then each_answer gets result error d
      else each_empty gets error d

  abbrev pub past :
      Gateway C
      → Option (List (PendingGet C) × List (Gateway C))
      → Option (List (PendingGet C) × List (Gateway C))
  past g none = none
  past g (some (gets, gs)) = some (gets, g ∷ gs)

  -- The callbacks that `wait` swaps out of a gateway when it sends the keys that are queued there.
  unfoldable pub take_gets : List (Gateway C) → Option (List (PendingGet C) × List (Gateway C))
  take_gets [] = none
  take_gets (g ∷ gs) =
      let rest = take_gets gs in
      elim g.pending_gets [
        | [] ↦ past g rest
        | k ∷ ks ↦ some (g.get_callbacks, record g { pending_gets = []; get_callbacks = [] } ∷ gs)
      ]

  abbrev pub answered :
      ℕ → List Buffer → Dht C → Option (List (PendingGet C) × List (Gateway C)) → Dht C
  answered error result d none = d
  answered error result d (some (gets, gs)) =
      handle_get_callbacks gets error result (record d { gateways = gs })

  -- The gets of `wait`, with the answers to the requests in the order in which they are sent; each
  -- comes in before the next request is sent.
  unfoldable pub wait_gets : List (ℕ × List Buffer) → Dht C → Dht C
  wait_gets [] d = d
  wait_gets ((error, result) ∷ answers) d =
      wait_gets answers (answered error result d (take_gets d.gateways))

  -- `remove`, which is not implemented in the source: it only calls its callback.
  unfoldable pub remove : C → Dht C → Dht C
  remove callback d = record d { calls = d.calls ++ put_done callback 0 ∷ [] }
