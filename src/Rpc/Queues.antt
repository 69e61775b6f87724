-- ===== src/Rpc/Queues.antt =====
-- The requests of rpc/rpc_client.hpp: queued for a host, waiting for a connection of their own, or
-- on a socket. Each of the two maps of maps by host and id is a list; which entry of a hash map
-- comes first is not told, here it is the first of the list. `opening` and `sending` are the
-- operations that Boost.Asio has under way. A callback is given with its event.
pub mod Waiting
pub mod Leak
use blobseer.Prelude.{
  ℕ, zero, suc, ◌+◌, ◌-◌, ◌%◌, Bool, true, false, not, ◌&&◌, Option, none, some, List, [], ◌∷◌,
  ◌++◌, u32, ltb, ◌==◌, if◌then◌else◌,
}

-- `rpcinfo_t`: what the queues use.
pub record Request (H : Type 0) : Type 0 where
  pub id : ℕ
  pub host_id : H

pub record RpcClient (H : Type 0) : Type 0 where
  pub request_map : List (Request H)
  pub pending_map : List (Request H)
  pub request_id : ℕ
  pub waiting_count : ℕ
  pub opening : List (Request H)
  pub sending : List (Request H)

abbrev pub wait_limit : ℕ
wait_limit = 128

abbrev pub new_client : {H : Type 0} → RpcClient H
new_client = record {
  request_map = [];
  pending_map = [];
  request_id = 0;
  waiting_count = 0;
  opening = [];
  sending = [];
}

-- How `async_connect` ends: `invalid_argument` is the error that `handle_connect` looks for.
pub data Errc : Type 0 where
  no_error invalid_argument other_error : Errc

abbrev pub is_error : Errc → Bool
is_error no_error = false
is_error _ = true

abbrev pub is_invalid_argument : Errc → Bool
is_invalid_argument invalid_argument = true
is_invalid_argument _ = false

-- What the callback of a request does: the hosts to which it dispatches requests, in order, and
-- whether it throws in the end, which `run` catches.
pub record Callback (H : Type 0) : Type 0 where
  pub hosts : List H
  pub throws : Bool

abbrev pub quiet : {H : Type 0} → Callback H
quiet = record { hosts = []; throws = false }

-- What happens to a client.
pub data ClientEvent (H : Type 0) : Type 0 where
  -- A request for a host.
  dispatched : H → ClientEvent H
  -- The resolver has failed for a request.
  unresolved : Request H → ClientEvent H
  -- A connection was opened for a request, or not; the callback that runs if not.
  connected : Request H → (error : Errc) → Callback H → ClientEvent H
  -- The request on a socket has ended, with its answer or an error, and its callback runs.
  finished : Request H → (error : Bool) → Callback H → ClientEvent H
  -- Nothing is under way, and `run` ends.
  ran : ClientEvent H

module _ {H : Type 0} (dec : Discrete H) where
  abbrev pub same_host : H → H → Bool
  same_host h k = elim (dec h k) [ yes e ↦ true | no e ↦ false ]

  abbrev pub same_request : Request H → Request H → Bool
  same_request r q = r.id == q.id && same_host r.host_id q.host_id

  abbrev pub cons_rest : Request H → Option (List (Request H)) → Option (List (Request H))
  cons_rest q none = none
  cons_rest q (some l) = some (q ∷ l)

  -- The list without a request, if it has it.
  unfoldable pub remove_request : Request H → List (Request H) → Option (List (Request H))
  remove_request r [] = none
  remove_request r (q ∷ l) =
      let rest = remove_request r l in if same_request r q then some l else cons_rest q rest

  abbrev pub or_all : List (Request H) → Option (List (Request H)) → List (Request H)
  or_all l none = l
  or_all l (some rest) = rest

  abbrev pub cons_found :
      Request H → Option (Request H × List (Request H)) → Option (Request H × List (Request H))
  cons_found q none = none
  cons_found q (some (r, l)) = some (r, q ∷ l)

  -- `dequeue_host`, and `dequeue_pending` of a host.
  unfoldable pub dequeue_host : H → List (Request H) → Option (Request H × List (Request H))
  dequeue_host host [] = none
  dequeue_host host (q ∷ l) =
      let rest = dequeue_host host l in
      if same_host q.host_id host then some (q, l) else cons_found q rest

  unfoldable pub enqueue : H → RpcClient H → RpcClient H
  enqueue host s =
      let r : Request H = record { id = s.request_id; host_id = host } in
      record s {
        request_map = r ∷ or_all s.request_map (remove_request r s.request_map);
        request_id = (s.request_id + 1) % u32;
      }

  unfoldable pub mark_pending : Request H → RpcClient H → RpcClient H
  mark_pending r s = record s {
    pending_map = r ∷ or_all s.pending_map (remove_request r s.pending_map);
  }

  abbrev pub send_on : Request H → RpcClient H → RpcClient H
  send_on r s = record s { sending = r ∷ s.sending }

  -- The loop of `handle_next_request` with `dequeue_any`, over the queued requests.
  unfoldable pub open_more : List (Request H) → RpcClient H → RpcClient H
  open_more [] s = record s { request_map = [] }
  open_more (r ∷ queue) s =
      let marked = mark_pending r s in
      let next =
        open_more queue
          (record marked { waiting_count = s.waiting_count + 1; opening = r ∷ s.opening }) in
      if ltb s.waiting_count wait_limit then next else record s { request_map = r ∷ queue }

  -- A socket to the host that is free again. A request that is taken here is not pending any
  -- more, so that `handle_connect`, called with `invalid_argument`, sends it.
  unfoldable pub reuse : H → RpcClient H → RpcClient H
  reuse host s = elim (dequeue_host host s.request_map) [
    | some (r, queue) ↦
        send_on r (record s { request_map = queue; waiting_count = s.waiting_count + 1 })
    | none ↦ elim (dequeue_host host s.pending_map) [
      | some (r, pending) ↦
          send_on r (record s { pending_map = pending; waiting_count = s.waiting_count + 1 })
      | none ↦ s
    ]
  ]

  unfoldable pub handle_next_request : Bool → H → RpcClient H → RpcClient H
  handle_next_request is_open host s =
      let s' = if is_open then reuse host s else s in open_more s'.request_map s'

  -- `dispatch`, whose call of `handle_next_request` has no socket.
  unfoldable pub dispatch : H → RpcClient H → RpcClient H
  dispatch host s = let s' = enqueue host s in handle_next_request false host s'

  unfoldable pub dispatch_all : List H → RpcClient H → RpcClient H
  dispatch_all [] s = s
  dispatch_all (host ∷ hosts) s = dispatch_all hosts (dispatch host s)

  -- The count is a word that wraps. The callback runs before the socket is used again.
  unfoldable pub handle_callback :
      Request H → (error : Bool) → Callback H → RpcClient H → RpcClient H
  handle_callback r error callback s =
      let s' =
        dispatch_all callback.hosts
          (record s { waiting_count = (s.waiting_count + u32 - 1) % u32 }) in
      if callback.throws then s' else handle_next_request (not error) r.host_id s'

  -- A request that is not pending any more has got another socket.
  unfoldable pub handle_connect :
      Request H → (error : Errc) → Callback H → RpcClient H → RpcClient H
  handle_connect r error callback s = elim (remove_request r s.pending_map) [
    | none ↦ if is_invalid_argument error then send_on r s else s
    | some pending ↦
        let s' = record s { pending_map = pending } in
        if is_error error then handle_callback r true callback s' else send_on r s'
  ]

  -- The end of `run`.
  abbrev pub run_ended : RpcClient H → RpcClient H
  run_ended s = record s { request_map = []; pending_map = []; waiting_count = 0 }

  -- `handle_resolve` with an error, for a request whose connection was asked for; `none` where the
  -- code calls `close` through a null pointer.
  unfoldable pub resolve_failed : Request H → RpcClient H → Option (RpcClient H)
  resolve_failed r s = elim (remove_request r s.pending_map) [ none ↦ some s | some pending ↦ none ]

  -- One event. An event of a request
  -- that has no such operation under way does not occur.
  unfoldable pub client_step : ClientEvent H → RpcClient H → Option (RpcClient H)
  client_step (dispatched host) s = some (dispatch host s)
  client_step (unresolved r) s = elim (remove_request r s.opening) [
    | none ↦ some s
    | some opening ↦ resolve_failed r (record s { opening = opening })
  ]
  client_step (connected r error callback) s = elim (remove_request r s.opening) [
    | none ↦ some s
    | some opening ↦ some (handle_connect r error callback (record s { opening = opening }))
  ]
  client_step (finished r error callback) s = elim (remove_request r s.sending) [
    | none ↦ some s
    | some sending ↦ some (handle_callback r error callback (record s { sending = sending }))
  ]
  client_step ran s = elim (s.opening ++ s.sending) [ [] ↦ some (run_ended s) | r ∷ l ↦ some s ]

  abbrev pub step_after : ClientEvent H → Option (RpcClient H) → Option (RpcClient H)
  step_after e none = none
  step_after e (some s) = client_step e s

  -- The client after some events, the latest first.
  unfoldable pub client_after : List (ClientEvent H) → Option (RpcClient H)
  client_after [] = some new_client
  client_after (e ∷ es) = step_after e (client_after es)
