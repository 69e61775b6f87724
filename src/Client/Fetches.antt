-- ===== src/Client/Fetches.antt =====
-- How a client gets one page from one of its replicas (`read` and `rpc_provider_callback` of
-- client/object_handler.cpp). A provider is a parameter: what it answers to a request and its
-- parameters. The random numbers of the choices are a parameter too.
use blobseer.Client.{Answer}
use blobseer.RangeQuery.Replicas.{RandomSelect, try_next}
use blobseer.Rpc.{Buffer}
use blobseer.Rpc.Status
use blobseer.Structures.{Provider, is_empty_provider}
use blobseer.Prelude.{
  ℕ, zero, suc, Option, none, some, List, [], ◌∷◌, length, last_or, ◌==◌, if◌then◌else◌,
}

pub data PageRequest : Type 0 where
  provider_read provider_read_partial provider_write : PageRequest

-- What a page's reading came to: the bytes in the buffer, or no replica is left.
pub data Fetch : Type 0 where
  aborted : Fetch
  fetched : Buffer → Fetch

-- `error == rpcstatus::ok && val.size() == 1`.
unfoldable pub accepted : Answer → Option Buffer
accepted (error, b ∷ []) = if error == Status.ok then some b else none
accepted (error, _) = none

module _ (random : ℕ → ℕ) (net : Provider → PageRequest → List Buffer → Answer)
    (call_type : PageRequest) (page_key : Buffer) where
  -- `rpc_provider_callback` and the requests that it makes, on fuel; `n` replicas were tried.
  unfoldable pub rpc_provider_callback : ℕ → ℕ → RandomSelect → Answer → Option Fetch
  rpc_provider_callback zero n repl answer = none
  rpc_provider_callback (suc fuel) n repl answer =
      let (adv, repl') = try_next (random n) repl in
      let rest = rpc_provider_callback fuel (suc n) repl' (net adv call_type (page_key ∷ [])) in
      elim (accepted answer) [
        | some b ↦ some (fetched b)
        | none ↦ if is_empty_provider adv then some aborted else rest
      ]

-- The request of `read` for a page, with its retries: `read_params.back()` is what they send.
unfoldable pub fetch :
    (ℕ → ℕ)
    → (Provider → PageRequest → List Buffer → Answer)
    → PageRequest
    → List Buffer
    → RandomSelect
    → Option Fetch
fetch random net call_type params repl =
    let (adv, repl') = try_next (random 0) repl in
    let rest =
      rpc_provider_callback random net call_type (last_or params []) (suc (length repl'.providers))
        1 repl' (net adv call_type params) in
    if is_empty_provider adv then some aborted else rest
