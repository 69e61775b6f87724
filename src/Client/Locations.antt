-- ===== src/Client/Locations.antt =====
-- `get_locations` of client/object_handler.cpp: all replicas of all pages of a range.
use blobseer.Client.{Answer, ObjectHandler, Ended, raised, undefined, returned}
use blobseer.Client.Reads.{is_refused, query_root, locate}
use blobseer.RangeQuery.Reads.{ReadState}
use blobseer.RangeQuery.Replicas.{RandomSelect, try_next}
use blobseer.Rpc.{Buffer, Codec}
use blobseer.Structures.{Provider, Query, TreeNode, is_empty_provider}
use blobseer.VManager.{Codecs}
use blobseer.VManager.Rpcs.{Request}
use blobseer.Prelude.{
  ℕ, zero, suc, ◌*◌, ◌%◌, true, false, not, Option, none, some, List, [], ◌∷◌, ◌++◌, map, length,
  u64, if◌then◌else◌,
}

-- `page_location_t`.
pub record PageLocation : Type 0 where
  pub provider : Provider
  pub offset : ℕ
  pub size : ℕ

abbrev pub cons_to : Provider → Option (List Provider) → Option (List Provider)
cons_to p none = none
cons_to p (some l) = some (p ∷ l)

-- The loop over the replicas of a page, on fuel.
unfoldable pub all_replicas : (ℕ → ℕ) → ℕ → ℕ → RandomSelect → Option (List Provider)
all_replicas random zero n s = none
all_replicas random (suc fuel) n s =
    let (adv, s') = try_next (random n) s in
    let rest = all_replicas random fuel (suc n) s' in
    if is_empty_provider adv then some [] else cons_to adv rest

abbrev pub append_to :
    Option (List Provider) → ℕ → ℕ → Option (List PageLocation) → Option (List PageLocation)
append_to (some l) offset size (some rest) =
    some (map (λ p. record { provider = p; offset = offset; size = size }) l ++ rest)
append_to _ offset size _ = none

-- The loop over the pages, from page `i` on.
unfoldable pub page_locations : (ℕ → ℕ → ℕ) → ℕ → ℕ → List RandomSelect → Option (List PageLocation)
page_locations random psize i [] = some []
page_locations random psize i (s ∷ vadv) =
    append_to (all_replicas (random i) (suc (length s.providers)) 0 s) (i * psize % u64) psize
      (page_locations random psize (suc i) vadv)

abbrev pub of_locations : Option (List PageLocation) → Ended (Option (List PageLocation))
of_locations none = undefined
of_locations (some l) = returned (some l)

abbrev pub locations_found : (ℕ → ℕ → ℕ) → ℕ → Option ReadState → Ended (Option (List PageLocation))
locations_found random psize none = undefined
locations_found random psize (some (false, vadv)) = returned none
locations_found random psize (some (true, vadv)) = of_locations (page_locations random psize 0 vadv)

unfoldable pub get_locations :
    Codecs
    → (Request → List Buffer → Answer)
    → Codec TreeNode
    → Codec (List Provider)
    → (Query → Buffer)
    → ℕ
    → (ℕ → ℕ → ℕ)
    → ℕ
    → ℕ
    → ℕ
    → ObjectHandler
    → Ended (Option (List PageLocation)) × ObjectHandler
get_locations c vmgr tree lc lookup depth random offset size version h =
    let ((found, root), h') = query_root c vmgr version h in
    if not found
    then (returned none, h')
    else if is_refused root version offset size
    then (raised, h')
    else (locations_found random root.page_size (locate tree lc lookup depth root offset size), h')
