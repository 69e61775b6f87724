-- ===== src/Rpc/Queues/Waiting.antt =====
-- How many requests a client of rpc/rpc_client.hpp has under way.
use blobseer.Rpc.Queues.{
  Request, RpcClient, ClientEvent, Callback, Errc, is_error, is_invalid_argument, dispatch,
  dispatch_all, dispatched, unresolved, connected, finished, ran, wait_limit, same_request,
  cons_rest, remove_request, dequeue_host, enqueue, mark_pending, send_on, open_more, reuse,
  handle_next_request, handle_callback, handle_connect, run_ended, resolve_failed, client_step,
  step_after, client_after,
}
use blobseer.Prelude.{
  ℕ, suc, ◌+◌, ◌-◌, ◌%◌, ◌≤◌, ◌≡◌, refl, ap, subst, Bool, true, not, Option, none, some, List, [],
  ◌∷◌, ◌++◌, length, length-append, u32, ltb, arith, if◌then◌else◌, if_cases,
}

module _ {H : Type 0} (dec : Discrete H) where
  abbrev Shorter : List (Request H) → Option (List (Request H)) → Type 0
  Shorter l none = Unit
  Shorter l (some l') = suc (length l') ≡ length l

  remove_request-Shorter :
      (r : Request H) (l : List (Request H)) → Shorter l (remove_request dec r l)
  unfolding remove_request
  remove_request-Shorter r [] = tt
  remove_request-Shorter r (q ∷ l) =
      if_cases (Shorter (q ∷ l)) (same_request dec r q) (λ e. refl)
        (λ e. go (remove_request dec r l) (remove_request-Shorter r l))
    where
      go : (o : Option (List (Request H))) → Shorter l o → Shorter (q ∷ l) (cons_rest dec q o)
      go none h = tt
      go (some l') h = ap suc h

  -- The requests on a socket and those with a connection of their own under way are counted, up to
  -- a bound.
  pub record Within (n : ℕ) (s : RpcClient H) : Type 0 where
    pub counted : length s.sending + length s.opening ≤ s.waiting_count
    pub limited : s.waiting_count ≤ n

  -- One more than the limit: a request that takes a free socket is counted without a test.
  abbrev pub IsCounted : RpcClient H → Type 0
  IsCounted = Within (suc wait_limit)

  open_more-Within :
      (n : ℕ) (queue : List (Request H)) (s : RpcClient H)
      → wait_limit ≤ n
      → Within n s
      → Within n (open_more dec queue s)
  unfolding open_more mark_pending
  open_more-Within n [] s le i = record { counted = i.counted; limited = i.limited }
  open_more-Within n (r ∷ queue) s le i =
      let marked = mark_pending dec r s in
      if_cases (Within n) (ltb s.waiting_count wait_limit)
        (λ e.
          open_more-Within n queue
            (record marked { waiting_count = s.waiting_count + 1; opening = r ∷ s.opening }) le
            (record { counted = omega (arith, i.counted); limited = ground arith }))
        (λ e. record { counted = i.counted; limited = i.limited })

  -- A socket that is free again takes at most one request.
  reuse-Within :
      (n : ℕ) (host : H) (s : RpcClient H) → Within n s → Within (suc n) (reuse dec host s)
  unfolding reuse
  reuse-Within n host s i = queued (dequeue_host dec host s.request_map)
    where
      waiting :
          (o : Option (Request H × List (Request H)))
          → Within (suc n) (elim o [
            | some (r, pending) ↦
                send_on dec r
                  (record s { pending_map = pending; waiting_count = s.waiting_count + 1 })
            | none ↦ s
          ])
      waiting none = record { counted = i.counted; limited = omega (arith, i.limited) }
      waiting (some (r, pending)) = record {
        counted = omega (arith, i.counted);
        limited = omega (arith, i.limited);
      }

      queued :
          (o : Option (Request H × List (Request H)))
          → Within (suc n) (elim o [
            | some (r, queue) ↦
                send_on dec r
                  (record s { request_map = queue; waiting_count = s.waiting_count + 1 })
            | none ↦ elim (dequeue_host dec host s.pending_map) [
              | some (r, pending) ↦
                  send_on dec r
                    (record s { pending_map = pending; waiting_count = s.waiting_count + 1 })
              | none ↦ s
            ]
          ])
      queued none = waiting (dequeue_host dec host s.pending_map)
      queued (some (r, queue)) = record {
        counted = omega (arith, i.counted);
        limited = omega (arith, i.limited);
      }

  dispatch-Within :
      (n : ℕ) (host : H) (s : RpcClient H)
      → wait_limit ≤ n
      → Within n s
      → Within n (dispatch dec host s)
  unfolding dispatch enqueue handle_next_request
  dispatch-Within n host s le i =
      open_more-Within n (enqueue dec host s).request_map (enqueue dec host s) le
        (record { counted = i.counted; limited = i.limited })

  dispatch_all-Within :
      (hosts : List H) (s : RpcClient H)
      → Within wait_limit s
      → Within wait_limit (dispatch_all dec hosts s)
  unfolding dispatch_all
  dispatch_all-Within [] s i = i
  dispatch_all-Within (host ∷ hosts) s i =
      dispatch_all-Within hosts (dispatch dec host s)
        (dispatch-Within wait_limit host s (omega arith) i)

  weaker : (s : RpcClient H) → Within wait_limit s → IsCounted s
  weaker s i = record { counted = i.counted; limited = omega (arith, i.limited) }

  handle_next_request-IsCounted :
      (is_open : Bool) (host : H) (s : RpcClient H)
      → Within wait_limit s
      → IsCounted (handle_next_request dec is_open host s)
  unfolding handle_next_request
  handle_next_request-IsCounted is_open host s i =
      let free =
        if_cases IsCounted is_open (λ e. reuse-Within wait_limit host s i) (λ e. weaker s i) in
      open_more-Within (suc wait_limit) (if is_open then reuse dec host s else s).request_map
        (if is_open then reuse dec host s else s) (omega arith) free

  handle_callback-IsCounted :
      (r : Request H) (error : Bool) (callback : Callback H) (s : RpcClient H)
      → suc (length s.sending + length s.opening) ≤ s.waiting_count
      → s.waiting_count ≤ suc wait_limit
      → IsCounted (handle_callback dec r error callback s)
  unfolding handle_callback
  handle_callback-IsCounted r error callback s more limit =
      let less : (s.waiting_count + u32 - 1) % u32 ≡ s.waiting_count - 1 =
        omega (arith, more, limit) in
      let s' = record s { waiting_count = (s.waiting_count + u32 - 1) % u32 } in
      let called =
        dispatch_all-Within callback.hosts s'
          (record { counted = omega (arith, more, less); limited = omega (arith, less, limit) }) in
      if_cases IsCounted callback.throws (λ e. weaker _ called)
        (λ e. handle_next_request-IsCounted (not error) r.host_id _ called)

  handle_connect-IsCounted :
      (r : Request H) (error : Errc) (callback : Callback H) (s : RpcClient H)
      → suc (length s.sending + length s.opening) ≤ s.waiting_count
      → s.waiting_count ≤ suc wait_limit
      → IsCounted (handle_connect dec r error callback s)
  unfolding handle_connect
  handle_connect-IsCounted r error callback s more limit = go (remove_request dec r s.pending_map)
    where
      go :
          (o : Option (List (Request H)))
          → IsCounted (elim o [
            | none ↦ if is_invalid_argument error then send_on dec r s else s
            | some pending ↦
                if is_error error
                then handle_callback dec r true callback (record s { pending_map = pending })
                else send_on dec r (record s { pending_map = pending })
          ])
      go none =
          if_cases IsCounted (is_invalid_argument error)
            (λ e. record { counted = omega (arith, more); limited = limit })
            (λ e. record { counted = omega (arith, more); limited = limit })
      go (some pending) =
          if_cases IsCounted (is_error error)
            (λ e.
              handle_callback-IsCounted r true callback (record s { pending_map = pending }) more
                limit)
            (λ e. record { counted = omega (arith, more); limited = limit })

  abbrev AllCounted : Option (RpcClient H) → Type 0
  AllCounted none = Unit
  AllCounted (some s) = IsCounted s

  resolve_failed-IsCounted :
      (r : Request H) (s : RpcClient H) → IsCounted s → AllCounted (resolve_failed dec r s)
  unfolding resolve_failed
  resolve_failed-IsCounted r s i = go (remove_request dec r s.pending_map)
    where
      go :
          (o : Option (List (Request H)))
          → AllCounted (elim o [ none ↦ some s | some pending ↦ none ])
      go none = i
      go (some pending) = tt

  client_step-IsCounted :
      (e : ClientEvent H) (s : RpcClient H) → IsCounted s → AllCounted (client_step dec e s)
  unfolding client_step
  client_step-IsCounted (dispatched host) s i =
      dispatch-Within (suc wait_limit) host s (omega arith) i
  client_step-IsCounted (unresolved r) s i =
      go (remove_request dec r s.opening) (remove_request-Shorter r s.opening)
    where
      go :
          (o : Option (List (Request H)))
          → Shorter s.opening o
          → AllCounted (elim o [
            | none ↦ some s
            | some opening ↦ resolve_failed dec r (record s { opening = opening })
          ])
      go none h = i
      go (some opening) h =
          resolve_failed-IsCounted r (record s { opening = opening })
            (record { counted = omega (arith, i.counted, h); limited = i.limited })
  client_step-IsCounted (connected r error callback) s i =
      go (remove_request dec r s.opening) (remove_request-Shorter r s.opening)
    where
      go :
          (o : Option (List (Request H)))
          → Shorter s.opening o
          → AllCounted (elim o [
            | none ↦ some s
            | some opening ↦
                some (handle_connect dec r error callback (record s { opening = opening }))
          ])
      go none h = i
      go (some opening) h =
          handle_connect-IsCounted r error callback (record s { opening = opening })
            (omega (arith, i.counted, h)) i.limited
  client_step-IsCounted (finished r error callback) s i =
      go (remove_request dec r s.sending) (remove_request-Shorter r s.sending)
    where
      go :
          (o : Option (List (Request H)))
          → Shorter s.sending o
          → AllCounted (elim o [
            | none ↦ some s
            | some sending ↦
                some (handle_callback dec r error callback (record s { sending = sending }))
          ])
      go none h = i
      go (some sending) h =
          handle_callback-IsCounted r error callback (record s { sending = sending })
            (omega (arith, i.counted, h)) i.limited
  client_step-IsCounted ran s i = go s.sending refl (s.opening ++ s.sending) refl
    where
      go :
          (l : List (Request H))
          → s.sending ≡ l
          → (o : List (Request H)) → s.opening ++ s.sending ≡ o
          → AllCounted (elim o [ [] ↦ some (run_ended dec s) | r ∷ l ↦ some s ])
      go l e [] h = record {
        counted = omega (arith, length-append s.opening s.sending, ap length h);
        limited = omega arith;
      }
      go l e (r ∷ o) h = i

  -- After any events, whatever requests the callbacks make and whether they throw, the requests on a
  -- socket and those whose own connection is being opened are together at most as many as the
  -- count: it does not wrap below 0. The count is at most 129, one more than the limit: a request
  -- that takes over a socket is counted without regard to the limit.
  pub client_after-IsCounted :
      (es : List (ClientEvent H)) (s : RpcClient H) → client_after dec es ≡ some s → IsCounted s
  unfolding client_after
  client_after-IsCounted es s e = of_all (client_after dec es) (all es) e
    where
      of_all : (o : Option (RpcClient H)) → AllCounted o → o ≡ some s → IsCounted s
      of_all none h e = cc
      of_all (some t) h e = subst AllCounted e h

      all : (es : List (ClientEvent H)) → AllCounted (client_after dec es)
      all [] = record { counted = omega arith; limited = omega arith }
      all (e ∷ es) = go (client_after dec es) (all es)
        where
          go : (o : Option (RpcClient H)) → AllCounted o → AllCounted (step_after dec e o)
          go none h = tt
          go (some t) h = client_step-IsCounted e t h
