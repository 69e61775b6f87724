-- ===== src/Rpc/Calls.antt =====
-- A call over a connection, from the client to the server and back (rpc/rpc_client.hpp and
-- rpc/rpc_server.hpp).
use mathlib.Core.List.{append_assoc}
use blobseer.Rpc.{Buffer}
use blobseer.Rpc.Status
use blobseer.Rpc.Wire.{
  RawWord, Header, read_bytes, bind, header_bytes, header_of, send_params, send_request,
  receive_params, receive_request, send_results, send_answer, own_size, next_own, receive_results,
  receive_answer, serve,
}
use blobseer.Prelude.{
  ℕ, suc, ◌<◌, ◌≡◌, ◌≢◌, refl, sym, ap, ◌∙◌, Bool, true, false, not, ◌&&◌, none, some, List, [],
  ◌∷◌, ◌++◌, length, length-append, take, drop, drop-append, All, u32, arith, ltb, ◌==◌,
  if◌then◌else◌, ◌⊎◌,
}

take-append : {A : Type 0} (xs ys : List A) → take (length xs) (xs ++ ys) ≡ xs
take-append [] ys = refl
take-append (x ∷ xs) ys = ap (λ t. x ∷ t) (take-append xs ys)

-- Exactly the bytes that were sent first are read first.
read_bytes-append :
    (n : ℕ) (b rest : Buffer) → length b ≡ n → read_bytes n (b ++ rest) ≡ some (b, rest)
unfolding read_bytes
read_bytes-append n b rest e =
    let enough : ltb (length (b ++ rest)) n ≡ false = ground (arith, length-append b rest, e) in
    let first : take n (b ++ rest) ≡ b =
      ap (λ t. take t (b ++ rest)) (sym e) ∙ take-append b rest in
    let others : drop n (b ++ rest) ≡ rest =
      ap (λ t. drop t (b ++ rest)) (sym e) ∙ drop-append b rest in
    rw (enough, first, others) refl

-- A buffer whose size fits the header.
abbrev pub IsSized : Buffer → Type 0
IsSized b = length b < u32

-- Each of the caller's own buffers has the size of the result that goes there.
abbrev pub Matches : List Buffer → List Buffer → Type 0
Matches own [] = Unit
Matches own (r ∷ rs) = ((own_size own ≡ 0) ⊎ (own_size own ≡ length r)) × Matches (next_own own) rs

module _ (raw : RawWord) where
  header_of-bytes :
      (h : Header)
      → h.name < u32
      → h.psize < u32
      → h.status < u32
      → header_of raw (header_bytes raw h) ≡ h
  unfolding header_of header_bytes
  header_of-bytes h a b c =
      let wn = raw.word h.name in
      let wp = raw.word h.psize in
      let ws = raw.word h.status in
      let first : take 4 (wn ++ (wp ++ ws)) ≡ wn =
        ap (λ t. take t (wn ++ (wp ++ ws))) (sym (raw.length-word h.name))
        ∙ take-append wn (wp ++ ws) in
      let rest : drop 4 (wn ++ (wp ++ ws)) ≡ wp ++ ws =
        ap (λ t. drop t (wn ++ (wp ++ ws))) (sym (raw.length-word h.name))
        ∙ drop-append wn (wp ++ ws) in
      let second : take 4 (wp ++ ws) ≡ wp =
        ap (λ t. take t (wp ++ ws)) (sym (raw.length-word h.psize)) ∙ take-append wp ws in
      let both : length (wn ++ wp) ≡ 8 =
        omega (arith, length-append wn wp, raw.length-word h.name, raw.length-word h.psize) in
      let third : drop 8 (wn ++ (wp ++ ws)) ≡ ws =
        ap (drop 8) (sym (append_assoc wn wp ws))
        ∙ ap (λ t. drop t ((wn ++ wp) ++ ws)) (sym both)
        ∙ drop-append (wn ++ wp) ws in
      rw
        (
          first,
          rest,
          second,
          third,
          raw.value-word h.name a,
          raw.value-word h.psize b,
          raw.value-word h.status c,
        )
        refl

  length-header : (h : Header) → length (header_bytes raw h) ≡ 12
  unfolding header_bytes
  length-header h =
      let wn = raw.word h.name in
      let wp = raw.word h.psize in
      let ws = raw.word h.status in
      omega (
        arith,
        length-append wn (wp ++ ws),
        length-append wp ws,
        raw.length-word h.name,
        raw.length-word h.psize,
        raw.length-word h.status,
      )

  -- The header is read first.
  read_header :
      (h : Header) (rest : Buffer)
      → read_bytes 12 (header_bytes raw h ++ rest) ≡ some (header_bytes raw h, rest)
  read_header h rest = read_bytes-append 12 (header_bytes raw h) rest (length-header h)

  -- A sized buffer is read in two steps.
  read_size :
      (b rest : Buffer)
      → read_bytes 4 ((raw.word (length b) ++ (b ++ rest))) ≡ some (raw.word (length b), b ++ rest)
  read_size b rest =
      read_bytes-append 4 (raw.word (length b)) (b ++ rest) (raw.length-word (length b))

  params-received :
      (ps : List Buffer) (rest : Buffer)
      → All IsSized ps
      → receive_params raw (length ps) (send_params raw ps ++ rest) ≡ some (ps, rest)
  unfolding receive_params send_params
  params-received [] rest sized = refl
  params-received (p ∷ ps) rest (small, sized) =
      let next = send_params raw ps ++ rest in
      let split : (raw.word (length p) ++ (p ++ send_params raw ps)) ++ rest
          ≡ raw.word (length p) ++ (p ++ next) =
        append_assoc (raw.word (length p)) (p ++ send_params raw ps) rest
        ∙ ap (λ t. raw.word (length p) ++ t) (append_assoc p (send_params raw ps) rest) in
      rw
        (
          split,
          read_size p next,
          raw.value-word (length p) small,
          read_bytes-append (length p) p next refl,
          params-received ps rest sized,
        )
        refl

  results-received :
      (own rs : List Buffer) (rest : Buffer)
      → All IsSized rs
      → Matches own rs
      → receive_results raw own (length rs) (send_results raw rs ++ rest) ≡ some (rs, rest)
  unfolding receive_results send_results
  results-received own [] rest sized fits = refl
  results-received own (r ∷ rs) rest (small, sized) (fit, fits) =
      let next = send_results raw rs ++ rest in
      let split : (raw.word (length r) ++ (r ++ send_results raw rs)) ++ rest
          ≡ raw.word (length r) ++ (r ++ next) =
        append_assoc (raw.word (length r)) (r ++ send_results raw rs) rest
        ∙ ap (λ t. raw.word (length r) ++ t) (append_assoc r (send_results raw rs) rest) in
      let agrees : (not (own_size own == 0) && not (own_size own == length r)) ≡ false =
        ground (arith, fit) in
      rw
        (
          split,
          read_size r next,
          raw.value-word (length r) small,
          agrees,
          read_bytes-append (length r) r next refl,
          results-received (next_own own) rs rest sized fits,
        )
        refl

  -- The server reads a request as it was sent.
  request-received :
      (known : ℕ → Bool) (name : ℕ) (params : List Buffer) (rest : Buffer)
      → name < u32
      → length params < u32
      → All IsSized params
      → receive_request raw known (send_request raw name params ++ rest)
        ≡ (if known name then some (record { name = name; params = params; rest = rest }) else none)
  unfolding receive_request send_request
  request-received known name params rest small few sized =
      let h : Header = record { name = name; psize = length params; status = Status.ok } in
      let split = append_assoc (header_bytes raw h) (send_params raw params) rest in
      rw
        (
          split,
          read_header h (send_params raw params ++ rest),
          header_of-bytes h small few (omega arith),
          params-received params rest sized,
        )
        refl

  answer-received :
      (name status : ℕ) (own result : List Buffer) (rest : Buffer)
      → name < u32
      → status < u32
      → length result < u32
      → All IsSized result
      → Matches own result
      → receive_answer raw own (send_answer raw name status result ++ rest)
        ≡ some (record { status = status; result = result; rest = rest })
  unfolding receive_answer send_answer
  answer-received name status own result rest small fine few sized fits =
      let h : Header = record { name = name; psize = length result; status = status } in
      let split = append_assoc (header_bytes raw h) (send_results raw result) rest in
      rw
        (
          split,
          read_header h (send_results raw result ++ rest),
          header_of-bytes h small few fine,
          results-received own result rest sized fits,
        )
        refl

  -- A call of a registered RPC gives the client exactly the status and the results that the
  -- server's callback returns for the parameters, whatever bytes follow on the connection; this for
  -- names, statuses, counts and sizes below 2^32, where each buffer that the caller has given for a
  -- result has the result's size.
  pub call_lem :
      (known : ℕ → Bool) (callback : ℕ → List Buffer → ℕ × List Buffer) (name : ℕ)
      (params own : List Buffer) (after later : Buffer)
      → known name ≡ true
      → name < u32
      → length params < u32
      → All IsSized params
      → (callback name params).0 < u32
      → length ((callback name params).1) < u32
      → All IsSized ((callback name params).1)
      → Matches own ((callback name params).1)
      → bind
          (serve raw known callback (send_request raw name params ++ after))
          (λ s. receive_answer raw own (s ++ later))
        ≡ some (record {
          status = (callback name params).0;
          result = (callback name params).1;
          rest = later;
        })
  unfolding serve
  call_lem known callback name params own after later there small few sized fine count results
        fits =
      rw (request-received known name params after small few sized, there)
        (answer-received name (callback name params).0 own (callback name params).1 later small fine
          count results fits)

  -- An own buffer of another size than its result makes the client give up.
  mismatched :
      (name status : ℕ) (own : Buffer) (result : List Buffer) (r rest : Buffer)
      → name < u32
      → status < u32
      → suc (length result) < u32
      → length r < u32
      → 0 < length own
      → length own ≢ length r
      → receive_answer raw (own ∷ []) (send_answer raw name status (r ∷ result) ++ rest) ≡ none
  unfolding receive_answer send_answer receive_results send_results
  mismatched name status own result r rest small fine few sized given other =
      let h : Header = record { name = name; psize = suc (length result); status = status } in
      let body = send_results raw (r ∷ result) in
      let split = append_assoc (header_bytes raw h) body rest in
      let split' : body ++ rest ≡ raw.word (length r) ++ (r ++ (send_results raw result ++ rest)) =
        append_assoc (raw.word (length r)) (r ++ send_results raw result) rest
        ∙ ap (λ t. raw.word (length r) ++ t) (append_assoc r (send_results raw result) rest) in
      let refused : (not (length own == 0) && not (length own == length r)) ≡ true =
        ground (arith, given, other) in
      rw
        (
          split,
          read_header h (body ++ rest),
          header_of-bytes h small few fine,
          split',
          read_size r (send_results raw result ++ rest),
          raw.value-word (length r) sized,
          refused,
        )
        refl
