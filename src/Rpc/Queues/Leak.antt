-- ===== src/Rpc/Queues/Leak.antt =====
-- A pending request that takes the socket of another, in rpc/rpc_client.hpp.
use blobseer.Rpc.Queues.{
  Request, RpcClient, Errc, is_invalid_argument, quiet, dispatch_all, connected, finished,
  wait_limit, same_request, same_host, remove_request, dequeue_host, open_more, reuse,
  handle_next_request, handle_callback, handle_connect, client_step, step_after,
}
use blobseer.Prelude.{
  ℕ, ◌+◌, ◌-◌, ◌%◌, ◌≤◌, ◌≡◌, refl, sym, ap, subst, ◌∙◌, true, false, some, List, [], ◌∷◌, u32,
  arith,
}

module _ {H : Type 0} (dec : Discrete H) where
  same_host_refl : (host : H) → same_host dec host host ≡ true
  same_host_refl host = go (dec host host)
    where
      go : (d : Dec (host ≡ host)) → elim d [ yes e ↦ true | no e ↦ false ] ≡ true
      go (yes e) = refl
      go (no e) = absurd (e refl)

  same_request_refl : (r : Request H) → same_request dec r r ≡ true
  same_request_refl r = rw (same_host_refl r.host_id) (ground arith)

  -- A client with no queued request.
  abbrev with_none : List (Request H) → List (Request H) → List (Request H) → ℕ → ℕ → RpcClient H
  with_none pending opening sending next w = record {
    request_map = [];
    pending_map = pending;
    request_id = next;
    waiting_count = w;
    opening = opening;
    sending = sending;
  }

  lower : (w : ℕ) → 1 ≤ w → w ≤ wait_limit → (w + u32 - 1) % u32 ≡ w - 1
  lower w one limit = omega (arith, one, limit)

  -- The pending request takes a free socket; with none, the socket is closed.
  reuse_pending :
      (host : H) (r : Request H) (opening : List (Request H)) (next v : ℕ)
      → host ≡ r.host_id
      → reuse dec host (with_none (r ∷ []) opening [] next v)
        ≡ with_none [] opening (r ∷ []) next (v + 1)
  unfolding reuse dequeue_host
  reuse_pending host r opening next v same =
      subst
        (λ h.
          reuse dec h (with_none (r ∷ []) opening [] next v)
          ≡ with_none [] opening (r ∷ []) next (v + 1))
        (sym same) (rw (same_host_refl r.host_id, reuse) refl)

  reuse_none :
      (host : H) (opening : List (Request H)) (next v : ℕ)
      → reuse dec host (with_none [] opening [] next v) ≡ with_none [] opening [] next v
  unfolding reuse dequeue_host
  reuse_none host opening next v = refl

  abbrev open_rest : RpcClient H → RpcClient H
  open_rest s = open_more dec s.request_map s

  -- The pending request takes the socket.
  taken_over :
      (x r : Request H) (next w : ℕ)
      → x.host_id ≡ r.host_id
      → 2 ≤ w
      → w ≤ wait_limit
      → handle_callback dec x false quiet (with_none (r ∷ []) (r ∷ []) [] next w)
        ≡ with_none [] (r ∷ []) (r ∷ []) next w
  unfolding handle_callback dispatch_all handle_next_request open_more
  taken_over x r next w same some_two limit =
      ap (λ t. open_rest (reuse dec x.host_id (with_none (r ∷ []) (r ∷ []) [] next t)))
        (lower w (omega (arith, some_two)) limit)
      ∙ ap open_rest (reuse_pending x.host_id r (r ∷ []) next (w - 1) same)
      ∙ ap (λ t. with_none [] (r ∷ []) (r ∷ []) next t) (omega (arith, some_two))

  last_done :
      (r : Request H) (next w : ℕ)
      → 2 ≤ w
      → w ≤ wait_limit
      → handle_callback dec r false quiet (with_none [] [] [] next w)
        ≡ with_none [] [] [] next (w - 1)
  unfolding handle_callback dispatch_all handle_next_request open_more
  last_done r next w some_two limit =
      ap (λ t. open_rest (reuse dec r.host_id (with_none [] [] [] next t)))
        (lower w (omega (arith, some_two)) limit)
      ∙ ap open_rest (reuse_none r.host_id [] next (w - 1))

  -- Where one request is on a socket, and another one to the same host waits for its connection, the
  -- second gets the socket of the first. When its own connection has come as well, or failed with
  -- another error than `invalid_argument`, and it is done, with callbacks that only return, nothing is under way any more, but the count has fallen by one and not by two.
  pub count_leak :
      (x r : Request H) (next w : ℕ) (error : Errc)
      → is_invalid_argument error ≡ false
      → x.host_id ≡ r.host_id
      → 2 ≤ w
      → w ≤ wait_limit
      → let s : RpcClient H = record {
        request_map = [];
        pending_map = r ∷ [];
        request_id = next;
        waiting_count = w;
        opening = r ∷ [];
        sending = x ∷ [];
      } in
        step_after dec
          (finished r false quiet)
          (step_after dec (connected r error quiet) (client_step dec (finished x false quiet) s))
        ≡ some (record {
          request_map = [];
          pending_map = [];
          request_id = next;
          waiting_count = w - 1;
          opening = [];
          sending = [];
        })
  unfolding client_step remove_request handle_connect
  count_leak x r next w error valid same some_two limit =
      let first : client_step dec (finished x false quiet)
            (with_none (r ∷ []) (r ∷ []) (x ∷ []) next w)
          ≡ some (with_none [] (r ∷ []) (r ∷ []) next w) =
        rw (same_request_refl x, client_step)
          (ap some (taken_over x r next w same some_two limit)) in
      let second : client_step dec (connected r error quiet) (with_none [] (r ∷ []) (r ∷ []) next w)
          ≡ some (with_none [] [] (r ∷ []) next w) =
        rw (same_request_refl r, valid, client_step) refl in
      let third : client_step dec (finished r false quiet) (with_none [] [] (r ∷ []) next w)
          ≡ some (with_none [] [] [] next (w - 1)) =
        rw (same_request_refl r, client_step) (ap some (last_done r next w some_two limit)) in
      ap (λ t. step_after dec (finished r false quiet) (step_after dec (connected r error quiet) t))
        first
      ∙ ap (step_after dec (finished r false quiet)) second
      ∙ third
