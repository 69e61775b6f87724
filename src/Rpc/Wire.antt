-- ===== src/Rpc/Wire.antt =====
-- What goes over a connection between rpc/rpc_client.hpp and rpc/rpc_server.hpp: the header and the
-- sized buffers of a request, and those of its answer. A chain of asynchronous handlers is one
-- function of the bytes that arrive; it gives `none` where the connection ends too early.
use blobseer.Rpc.{Buffer}
use blobseer.Rpc.Status
use blobseer.Prelude.{
  ℕ, zero, suc, ◌<◌, ◌≡◌, Bool, not, ◌&&◌, Option, none, some, List, [], ◌∷◌, ◌++◌, length, take,
  drop, u32, ltb, ◌==◌, if◌then◌else◌,
}

-- The bytes of a 32-bit word in memory.
pub record RawWord : Type 0 where
  pub word : ℕ → Buffer
  pub value : Buffer → ℕ
  pub length-word : (n : ℕ) → length (word n) ≡ 4
  pub value-word : (n : ℕ) → n < u32 → value (word n) ≡ n

-- `async_read` of `n` bytes: they, and what comes after them.
unfoldable pub read_bytes : ℕ → Buffer → Option (Buffer × Buffer)
read_bytes n s = if ltb (length s) n then none else some (take n s, drop n s)

abbrev pub bind : {A B : Type 0} → Option A → (A → Option B) → Option B
bind none k = none
bind (some a) k = k a

-- `rpcheader_t`.
pub record Header : Type 0 where
  pub name : ℕ
  pub psize : ℕ
  pub status : ℕ

-- A request that the server has read, and the rest of the bytes.
pub record Task : Type 0 where
  pub name : ℕ
  pub params : List Buffer
  pub rest : Buffer

-- The answer that a client has read.
pub record Answered : Type 0 where
  pub status : ℕ
  pub result : List Buffer
  pub rest : Buffer

-- The size of the client's own buffer for the next result, 0 where there is none.
abbrev pub own_size : List Buffer → ℕ
own_size [] = 0
own_size (b ∷ bs) = length b

abbrev pub next_own : List Buffer → List Buffer
next_own [] = []
next_own (b ∷ bs) = bs

module _ (raw : RawWord) where
  unfoldable pub header_bytes : Header → Buffer
  header_bytes h = raw.word (h.name) ++ (raw.word (h.psize) ++ raw.word (h.status))

  unfoldable pub header_of : Buffer → Header
  header_of b = record {
    name = raw.value (take 4 b);
    psize = raw.value (take 4 (drop 4 b));
    status = raw.value (drop 8 b);
  }

  -- The client's `handle_params`, `handle_param_size` and `handle_param_buffer`.
  unfoldable pub send_params : List Buffer → Buffer
  send_params [] = []
  send_params (p ∷ ps) = raw.word (length p) ++ (p ++ send_params ps)

  -- The client's `handle_connect` and `handle_header`.
  unfoldable pub send_request : ℕ → List Buffer → Buffer
  send_request name params =
      header_bytes (record { name = name; psize = length params; status = Status.ok })
      ++ send_params params

  -- The server's `handle_params`, `handle_param_size` and `handle_param_buffer`, for `n` more
  -- parameters.
  unfoldable pub receive_params : ℕ → Buffer → Option (List Buffer × Buffer)
  receive_params zero s = some ([], s)
  receive_params (suc n) s = bind (read_bytes 4 s) λ (w, s').
      bind (read_bytes (raw.value w) s')
        λ (p, s''). bind (receive_params n s'') λ (ps, rest). some (p ∷ ps, rest)

  -- The server's `handle_header`; `known` are the names with a callback.
  unfoldable pub receive_request : (ℕ → Bool) → Buffer → Option Task
  receive_request known s = bind (read_bytes 12 s) λ (b, s').
      let h = header_of b in
      let params = receive_params h.psize s' in
      if known h.name
      then bind params (λ (ps, rest). some (record { name = h.name; params = ps; rest = rest }))
      else none

  -- The server's `handle_answer`, `handle_answer_size` and `handle_answer_buffer`.
  unfoldable pub send_results : List Buffer → Buffer
  send_results [] = []
  send_results (r ∷ rs) = raw.word (length r) ++ (r ++ send_results rs)

  -- The header that the server's `processor_exec` sends, and the results.
  unfoldable pub send_answer : ℕ → ℕ → List Buffer → Buffer
  send_answer name status result =
      header_bytes (record { name = name; psize = length result; status = status })
      ++ send_results result

  -- The client's `handle_answer`, `handle_answer_size` and `handle_answer_buffer`, for `n` more
  -- results; `own` are the buffers that the caller has given for them.
  unfoldable pub receive_results : List Buffer → ℕ → Buffer → Option (List Buffer × Buffer)
  receive_results own zero s = some ([], s)
  receive_results own (suc n) s = bind (read_bytes 4 s) λ (w, s').
      let more =
        bind (read_bytes (raw.value w) s') λ (r, s'').
          bind (receive_results (next_own own) n s'') λ (rs, rest). some (r ∷ rs, rest) in
      if not (own_size own == 0) && not (own_size own == raw.value w) then none else more

  -- The client's `handle_answer` on the header.
  unfoldable pub receive_answer : List Buffer → Buffer → Option Answered
  receive_answer own s = bind (read_bytes 12 s) λ (b, s').
      let h = header_of b in
      bind (receive_results own h.psize s')
        λ (rs, rest). some (record { status = h.status; result = rs; rest = rest })

  -- A callback of the server, a function of the name and the parameters, over a connection.
  unfoldable pub serve : (ℕ → Bool) → (ℕ → List Buffer → ℕ × List Buffer) → Buffer → Option Buffer
  serve known callback s = bind (receive_request known s) λ t.
      let (status, result) = callback t.name t.params in some (send_answer t.name status result)
