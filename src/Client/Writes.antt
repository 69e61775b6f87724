-- ===== src/Client/Writes.antt =====
-- `exec_write` of client/object_handler.cpp. The provider manager, the version manager and the
-- providers are parameters: `net n` is what a provider answers to attempt `n` of a page's write.
-- The steps that others can see are recorded in order. The pages are written one after the other.
use blobseer.Client.{
  Answer, ObjectHandler, Ended, raised, undefined, returned, rpc_get_serialized,
  rpc_result_callback,
}
use blobseer.Client.Copies.{bytes}
use blobseer.Client.Reads.{Memory}
use blobseer.RangeQuery.{Put}
use blobseer.RangeQuery.Records.{newest_key}
use blobseer.Rpc.{Buffer, Codec}
use blobseer.Rpc.Status
use blobseer.Structures.{Provider, Query, null_root}
use blobseer.VManager.{Codecs, Reply}
use blobseer.VManager.Intervals.{Entry}
use blobseer.VManager.Rpcs.{Request, get_ticket_rpc, publish_rpc}
use blobseer.Prelude.{
  ℕ, zero, suc, ◌+◌, ◌*◌, ◌/◌, ◌%◌, Bool, true, false, not, ◌||◌, Option, none, some, List, [], ◌∷◌,
  ◌++◌, length, take, drop, u64, ltb, ◌==◌, if◌then◌else◌,
}

-- What a write has done so far.
pub data Step : Type 0 where
  -- Whether a replica of a page was written in the end.
  wrote_replica : Query → Provider → Bool → Step
  asked_ticket : Query → Step
  -- The puts of the metadata, and whether all were good.
  put_locations : Bool → List Put → Step
  asked_publish : Query → Step

abbrev pub Outcome : Type 0
Outcome = Ended (Bool × ObjectHandler × List Step)

-- `rpc_write_callback` after attempt `retries`, and the requests that it makes; `left` more attempts
-- are allowed.
unfoldable pub rpc_write_callback : (ℕ → ℕ) → ℕ → ℕ → ℕ → Bool
rpc_write_callback send zero retries error = error == Status.ok
rpc_write_callback send (suc left) retries error =
    let again = rpc_write_callback send left (suc retries) (send (suc retries)) in
    if error == Status.ok then true else again

-- The replicas of one page.
unfoldable pub write_replicas :
    (ℕ → Provider → List Buffer → ℕ)
    → ℕ
    → Query
    → List Buffer
    → List Provider
    → List Bool × List Step
write_replicas net retry_count key params [] = ([], [])
write_replicas net retry_count key params (p ∷ ps) =
    let (results, steps) = write_replicas net retry_count key params ps in
    let result = rpc_write_callback (λ n. net n p params) retry_count 0 (net 0 p params) in
    (result ∷ results, wrote_replica key p result ∷ steps)

abbrev pub page_key_of : ℕ → ℕ → ℕ → ℕ → Query
page_key_of id version page_size i = record {
  id = id;
  version = version;
  offset = i;
  size = page_size;
}

-- The keys of the pages, the results of the replicas, and the steps.
pub record Pages : Type 0 where
  pub node_deque : List Query
  pub page_results : List Bool
  pub steps : List Step

abbrev pub add_page : Query → List Bool × List Step → Option Pages → Option Pages
add_page key page none = none
add_page key page (some rest) = some (record {
  node_deque = key ∷ rest.node_deque;
  page_results = page.0 ++ rest.page_results;
  steps = page.1 ++ rest.steps;
})

abbrev pub no_pages : ℕ → List Bool
no_pages zero = []
no_pages (suc n) = false ∷ no_pages n

module _ (c : Codecs) (net : ℕ → Provider → List Buffer → ℕ) (retry_count : ℕ) (mem : Memory)
    (range : Query) (page_size replica_count : ℕ) where
  -- The loop over the pages, on fuel; `adv` are the providers not used yet. `none` where there are
  -- too few of them, or the page's offset wraps for ever.
  unfoldable pub write_pages : ℕ → ℕ → List Provider → Option Pages
  write_pages zero i adv = none
  write_pages (suc fuel) i adv =
      let key = page_key_of range.id range.version page_size i in
      let params = c.query.encode key ∷ bytes mem (i * page_size % u64) page_size ∷ [] in
      let rest = write_pages fuel (suc i) (drop replica_count adv) in
      if not (ltb (i * page_size % u64) range.size)
      then some (record { node_deque = []; page_results = no_pages (length adv); steps = [] })
      else if ltb (length adv) replica_count
      then none
      else add_page key (write_replicas net retry_count key params (take replica_count adv)) rest

-- The loop over the replicas of one page; `none` beyond the end of the bits.
unfoldable pub any_written : ℕ → List Bool → Option Bool
any_written zero bits = some false
any_written (suc n) [] = none
any_written (suc n) (true ∷ bits) = some true
any_written (suc n) (false ∷ bits) = any_written n bits

-- The loop over the pages, on fuel.
unfoldable pub all_written : ℕ → ℕ → List Bool → Option Bool
all_written zero replica_count bits = none
all_written (suc fuel) replica_count [] = some true
all_written (suc fuel) replica_count (b ∷ bits) =
    let rest = all_written fuel replica_count (drop replica_count (b ∷ bits)) in
    elim (any_written replica_count (b ∷ bits)) [
      | none ↦ none
      | some false ↦ some false
      | some true ↦ rest
    ]

abbrev pub null_reply : Reply
null_reply = record { intervals = []; root_size = 0; stable_root = null_root }

module _ (c : Codecs) (lc : Codec (List Provider)) (vmgr : Request → List Buffer → Answer)
    (publisher : List Buffer → Answer) (net : ℕ → Provider → List Buffer → ℕ)
    (put_tree : Reply → List Provider → List Query → Option (Bool × List Put)) where
  -- The end of a write: publish, and note the version.
  unfoldable pub publish_range : Query → List Step → ObjectHandler → Outcome
  publish_range range steps h =
      let result = rpc_result_callback true (vmgr publish_rpc (c.query.encode range ∷ [])) in
      let latest = h.latest_root in
      returned (
        result,
        if result
            then record h {
              latest_root = record latest {
                node = record (latest.node) { version = range.version };
              };
            }
            else h,
        steps ++ asked_publish range ∷ [],
      )

  -- What `writeRecordLocations` came to.
  unfoldable pub after_tree : Query → List Step → ObjectHandler → Option (Bool × List Put) → Outcome
  after_tree range steps h none = undefined
  after_tree range steps h (some (false, puts)) =
      returned (false, h, steps ++ put_locations false puts ∷ [])
  after_tree range steps h (some (true, puts)) =
      publish_range range (steps ++ put_locations true puts ∷ []) h

  -- The range is the newest of the intervals.
  unfoldable pub after_ticket :
      Reply → List Provider → List Query → List Step → ObjectHandler → List Entry → Outcome
  after_ticket reply adv node_deque steps h [] = undefined
  after_ticket reply adv node_deque steps h (e ∷ es) =
      after_tree (newest_key e es) steps h (put_tree reply adv node_deque)

  -- The ticket, and the metadata.
  unfoldable pub with_ticket :
      Query → Bool → List Provider → List Query → List Step → ObjectHandler → Outcome
  with_ticket range append adv node_deque steps h =
      let (result, reply) =
        rpc_get_serialized c.reply true null_reply
          (vmgr get_ticket_rpc (c.query.encode range ∷ c.flag.encode append ∷ [])) in
      let steps' = steps ++ asked_ticket range ∷ [] in
      if not result
      then returned (false, h, steps')
      else after_ticket reply adv node_deque steps' h reply.intervals

  -- Whether every page has a replica.
  unfoldable pub after_check :
      Query → Bool → List Provider → Pages → ObjectHandler → Option Bool → Outcome
  after_check range append adv p h none = undefined
  after_check range append adv p h (some false) = returned (false, h, p.steps)
  after_check range append adv p h (some true) = with_ticket range append adv p.node_deque p.steps h

  unfoldable pub after_pages : Query → Bool → List Provider → ObjectHandler → Option Pages → Outcome
  after_pages range append adv h none = undefined
  after_pages range append adv h (some p) =
      after_check range append adv p h
        (all_written (suc (length p.page_results)) h.latest_root.replica_count p.page_results)

  -- `version` is the random number that names the pages.
  unfoldable pub exec_write : ℕ → ℕ → Memory → Bool → ℕ → ObjectHandler → Outcome
  exec_write offset size mem append version h =
      let latest = h.latest_root in
      let range : Query = record { id = h.id; version = version; offset = offset; size = size } in
      let wanted = size / latest.page_size * latest.replica_count % u64 in
      let (result, adv) =
        rpc_get_serialized lc true []
          (publisher (c.word64.encode wanted ∷ c.word32.encode latest.replica_count ∷ [])) in
      if latest.page_size == 0
      then raised
      else if not result || ltb (length adv) wanted
      then returned (false, h, [])
      else after_pages range append adv h (
          write_pages c net h.retry_count mem range latest.page_size latest.replica_count
            (size / latest.page_size + 2) 0 adv)

  unfoldable pub append : ℕ → Memory → ℕ → ObjectHandler → Outcome
  append size mem version h = exec_write 0 size mem true version h

  unfoldable pub write : ℕ → ℕ → Memory → ℕ → ObjectHandler → Outcome
  write offset size mem version h = exec_write offset size mem false version h
