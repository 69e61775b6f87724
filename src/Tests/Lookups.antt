-- ===== src/Tests/Lookups.antt =====
-- The theorems on the hash table, with one gateway and two replicas.
use blobseer.Dht.{Dht, PendingPut, got, put_done, get, wait_gets}
use blobseer.Dht.Gets.{get_answers_lem, first_settled}
use blobseer.Dht.Puts.{put_answers, put_answers_lem, any_ok}
use blobseer.Rpc.Status
use blobseer.Prelude.{ℕ, ◌≡◌, refl, [], ◌∷◌, if◌then◌else◌, arith}

abbrev table : Dht ℕ
table = record {
  gateways =
      record {
        host = "a";
        service = "1";
        pending_gets = [];
        pending_puts = [];
        get_callbacks = [];
        put_callbacks = [];
      }
      ∷ [];
  replication = 2;
  statuses = 0 ∷ [];
  calls = [];
}

abbrev putting : PendingPut ℕ
putting = record { status = 0; put_callback = 6 }

-- The first replica fails, and the second has the page.
get_answers_lem_example :
    (wait_gets ((28, []) ∷ (0, (7 ∷ []) ∷ []) ∷ []) (get (1 ∷ []) 5 0 table)).calls
    ≡ got 5 (first_settled ((28, []) ∷ (0, (7 ∷ []) ∷ []) ∷ [])) ∷ []
get_answers_lem_example =
    get_answers_lem (1 ∷ []) 5 ((28, []) ∷ (0, (7 ∷ []) ∷ []) ∷ []) table ((refl, refl), tt)
      (omega arith) (omega arith) refl

put_answers_lem_example :
    (put_answers putting (0 ∷ 28 ∷ []) table).calls
    ≡ put_done 6 (if any_ok (0 ∷ 28 ∷ []) then Status.ok else Status.eobj) ∷ []
put_answers_lem_example =
    put_answers_lem putting (0 ∷ 28 ∷ []) table (omega arith) refl (omega arith) (omega arith) refl
