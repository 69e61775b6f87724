-- ===== src/Client/Reads.antt =====
-- `read` of client/object_handler.cpp. The user's buffer is a function from places to bytes; what a
-- read that answers false leaves in it is not told. The pages are asked for one after the other.
use blobseer.Client.{Answer, ObjectHandler, Ended, raised, undefined, returned, get_root}
use blobseer.Client.Fetches.{
  PageRequest, provider_read, provider_read_partial, aborted, fetched, fetch,
}
use blobseer.Client.Plan.{PageRead, new_offset, nbr_vadv, cuts_right, plan}
use blobseer.RangeQuery.Reads.{ReadState, read_record_locations}
use blobseer.RangeQuery.Replicas.{RandomSelect, null_select}
use blobseer.Rpc.{Buffer, Codec}
use blobseer.Structures.{Provider, Query, Root, TreeNode, null_root}
use blobseer.VManager.{Codecs}
use blobseer.VManager.Rpcs.{Request}
use blobseer.Prelude.{
  ℕ, zero, suc, ◌+◌, ◌-◌, ◌*◌, ◌%◌, Bool, true, false, not, ◌&&◌, ◌||◌, Option, none, some, List,
  [], ◌∷◌, length, get_or, u32, u64, ltb, leb, ◌==◌, if◌then◌else◌,
}

abbrev pub Memory : Type 0
Memory = ℕ → ℕ

-- The bytes of a buffer at a place.
abbrev pub store : ℕ → Buffer → Memory → Memory
store dest b mem k = if leb dest k && ltb k (dest + length b) then get_or b (k - dest) 0 else mem k

abbrev pub call_of : PageRead → PageRequest
call_of p = if p.is_partial then provider_read_partial else provider_read

abbrev pub params_of : Codecs → PageRead → Query → List Buffer
params_of c p key =
    c.query.encode key
    ∷ (if p.is_partial then c.word64.encode (p.start) ∷ c.word64.encode (p.count) ∷ [] else [])

-- `std::vector<random_select> vadv(n)`.
abbrev pub new_vadv : ℕ → List RandomSelect
new_vadv zero = []
new_vadv (suc n) = null_select ∷ new_vadv n

-- The tests of `read` and of `get_locations` that throw.
unfoldable pub is_refused : Root → ℕ → ℕ → ℕ → Bool
is_refused root version offset size =
    ltb root.node.version version
    || (root.page_size == 0 || ltb root.node.size ((offset + size) % u64))

-- The range of whole pages that holds the bytes.
abbrev pub range_of : Root → ℕ → ℕ → Query
range_of root offset size = record {
  id = root.node.id;
  version = root.node.version;
  offset = new_offset root.page_size offset;
  size = nbr_vadv root.page_size offset size * root.page_size % u64;
}

module _ (c : Codecs) (random : ℕ → ℕ → ℕ)
    (net : Provider → PageRequest → List Buffer → Answer) where
  -- The requests of a plan. `random i` are the numbers drawn for page `i`.
  unfoldable pub read_pages : List RandomSelect → List PageRead → Memory → Ended (Option Memory)
  read_pages vadv [] mem = returned (some mem)
  read_pages vadv (p ∷ ps) mem =
      let s = get_or vadv p.index null_select in
      elim (fetch (random p.index) net (call_of p) (params_of c p s.page_key) s) [
        | none ↦ undefined
        | some aborted ↦ returned none
        | some (fetched b) ↦
            if ltb p.index (length vadv) then read_pages vadv ps (store p.dest b mem) else undefined
      ]

  -- The part of `read` after the look-up of the pages.
  unfoldable pub read_found : ℕ → ℕ → ℕ → Memory → Option ReadState → Ended (Option Memory)
  read_found psize offset size mem none = undefined
  read_found psize offset size mem (some (false, vadv)) = returned none
  read_found psize offset size mem (some (true, vadv)) =
      let pages = length vadv % u32 in
      if pages == 0 && cuts_right psize offset size pages
      then undefined
      else read_pages vadv (plan psize offset size pages) mem

-- The root that a read uses, and whether there is one.
unfoldable pub query_root :
    Codecs → (Request → List Buffer → Answer) → ℕ → ObjectHandler → (Bool × Root) × ObjectHandler
query_root c vmgr version h =
    if version == 0 then ((true, h.latest_root), h) else get_root c vmgr version null_root h

-- `query->readRecordLocations(vadv, range, query_root)`.
abbrev pub locate :
    Codec TreeNode → Codec (List Provider) → (Query → Buffer) → ℕ → Root → ℕ → ℕ → Option ReadState
locate tree lc lookup depth root offset size =
    read_record_locations tree lc lookup depth (new_vadv (nbr_vadv root.page_size offset size))
      (range_of root offset size) root

unfoldable pub read :
    Codecs
    → (Request → List Buffer → Answer)
    → Codec TreeNode
    → Codec (List Provider)
    → (Query → Buffer)
    → ℕ
    → (ℕ → ℕ → ℕ)
    → (Provider → PageRequest → List Buffer → Answer)
    → ℕ
    → ℕ
    → Memory
    → ℕ
    → ObjectHandler
    → Ended (Option Memory) × ObjectHandler
read c vmgr tree lc lookup depth random net offset size mem version h =
    let ((found, root), h') = query_root c vmgr version h in
    if not found
    then (returned none, h')
    else if is_refused root version offset size
    then (raised, h')
    else (
      read_found c random net root.page_size offset size mem
          (locate tree lc lookup depth root offset size),
      h',
    )
