-- ===== src/Tests/Calls.antt =====
-- The theorems on the RPC client, its timers and its connections, at small examples.
use blobseer.Rpc.{Buffer}
use blobseer.Rpc.Calls.{call_lem}
use blobseer.Rpc.Queues.{
  Request, RpcClient, no_error, quiet, dispatch, dispatch_all, handle_callback, reuse, dequeue_host,
  handle_next_request, dispatched, connected, finished, step_after, client_step, client_after,
  open_more, enqueue, mark_pending, remove_request, handle_connect,
}
use blobseer.Rpc.Queues.Leak.{count_leak}
use blobseer.Rpc.Queues.Waiting.{IsCounted, client_after-IsCounted}
use blobseer.Rpc.Timers.{
  TimerTable, TimerOp, add, cancel, timers_after, watchdog_round, watchdog_round_lem,
}
use blobseer.Rpc.Wire.{RawWord, bind, send_request, receive_answer, serve}
use blobseer.Prelude.{
  ℕ, ◌+◌, ◌*◌, ◌/◌, ◌%◌, ◌≤◌, ◌<◌, ◌≡◌, refl, Bool, false, some, List, [], ◌∷◌, ◌++◌, map, All,
  arith, ◌==◌, inl, inr, ℕ_discrete,
}

abbrev bytes_of : ℕ → Buffer
bytes_of n = n % 256 ∷ n / 256 % 256 ∷ n / 65536 % 256 ∷ n / 16777216 ∷ []

abbrev value_of : Buffer → ℕ
value_of (a ∷ b ∷ c ∷ d ∷ []) = a + 256 * b + 65536 * c + 16777216 * d
value_of _ = 0

-- Little-endian words.
abbrev little : RawWord
little = record {
  word = bytes_of;
  value = value_of;
  length-word = λ n. refl;
  value-word = λ n small. omega arith;
}

abbrev second_only : ℕ → Bool
second_only n = n == 2

-- Answers the first parameter, and an empty buffer.
abbrev echo : ℕ → List Buffer → ℕ × List Buffer
echo name [] = (7, [])
echo name (p ∷ ps) = (0, p ∷ [] ∷ [])

call_lem_example :
    bind
      (serve little second_only echo (send_request little 2 ((5 ∷ 6 ∷ []) ∷ (9 ∷ []) ∷ []) ++ []))
      (λ s. receive_answer little ((0 ∷ 0 ∷ []) ∷ []) (s ++ (1 ∷ [])))
    ≡ some (record { status = 0; result = (5 ∷ 6 ∷ []) ∷ [] ∷ []; rest = 1 ∷ [] })
call_lem_example =
    call_lem little second_only echo 2 ((5 ∷ 6 ∷ []) ∷ (9 ∷ []) ∷ []) ((0 ∷ 0 ∷ []) ∷ []) []
      (1 ∷ []) refl (omega arith) (omega arith) (omega arith, (omega arith, tt)) (omega arith)
      (omega arith) (omega arith, (omega arith, tt)) (inr refl, (inl refl, tt))

abbrev timer_ops : List (TimerOp ℕ_discrete)
timer_ops = add 3 20 ∷ cancel 1 ∷ add 2 5 ∷ add 1 10 ∷ []

watchdog_round_lem_example :
    (gone : TimerTable ℕ) × (timers_after ℕ_discrete timer_ops
      ≡ gone ++ (watchdog_round ℕ_discrete 8 (timers_after ℕ_discrete timer_ops)).1)
    × ((watchdog_round ℕ_discrete 8 (timers_after ℕ_discrete timer_ops)).0
        ≡ map (λ e. e.socket) gone)
    × All (λ e. e.time < 8) gone
    × All (λ e. 8 ≤ e.time) (watchdog_round ℕ_discrete 8 (timers_after ℕ_discrete timer_ops)).1
watchdog_round_lem_example = watchdog_round_lem ℕ_discrete timer_ops 8

abbrev first_request : Request ℕ
first_request = record { id = 0; host_id = 4 }

abbrev one_sending : RpcClient ℕ
one_sending = record {
  request_map = [];
  pending_map = [];
  request_id = 1;
  waiting_count = 1;
  opening = [];
  sending = first_request ∷ [];
}

run_to_send :
    client_after ℕ_discrete (connected first_request no_error quiet ∷ dispatched 4 ∷ [])
    ≡ some one_sending
unfolding client_after client_step dispatch handle_next_request open_more enqueue mark_pending
    remove_request handle_connect ℕ_discrete
run_to_send = refl

client_after-IsCounted_example : IsCounted ℕ_discrete one_sending
client_after-IsCounted_example =
    client_after-IsCounted ℕ_discrete (connected first_request no_error quiet ∷ dispatched 4 ∷ [])
      one_sending run_to_send

count_leak_example :
    step_after ℕ_discrete (finished first_request false quiet) (
      step_after ℕ_discrete (connected first_request no_error quiet) (
        client_step ℕ_discrete (finished (record { id = 1; host_id = 4 }) false quiet) (record {
          request_map = [];
          pending_map = first_request ∷ [];
          request_id = 2;
          waiting_count = 2;
          opening = first_request ∷ [];
          sending = record { id = 1; host_id = 4 } ∷ [];
        })))
    ≡ some (record {
      request_map = [];
      pending_map = [];
      request_id = 2;
      waiting_count = 1;
      opening = [];
      sending = [];
    })
count_leak_example =
    count_leak ℕ_discrete (record { id = 1; host_id = 4 }) first_request 2 2 no_error refl refl
      (omega arith) (omega arith)

-- The callback makes two requests, of which one is opened, up to the limit, and the other one takes
-- the socket: 129 are counted.
over_limit :
    client_step ℕ_discrete
      (finished first_request false (record { hosts = 4 ∷ 4 ∷ []; throws = false }))
      (record one_sending { waiting_count = 128 })
    ≡ some (record {
      request_map = [];
      pending_map = record { id = 1; host_id = 4 } ∷ [];
      request_id = 3;
      waiting_count = 129;
      opening = record { id = 1; host_id = 4 } ∷ [];
      sending = record { id = 2; host_id = 4 } ∷ [];
    })
unfolding client_step handle_callback dispatch_all dispatch handle_next_request open_more enqueue
    mark_pending remove_request reuse dequeue_host ℕ_discrete
over_limit = refl
