-- ===== src/Tests/Clients.antt =====
-- The theorems on the client, at a blob of one page of 4 bytes.
use mathlib.Core.List.{Perm}
use blobseer.Cache.Lru
use blobseer.Client.{Answer, ObjectHandler, returned}
use blobseer.Client.Contents.{client_read_lem}
use blobseer.Client.Copies.{Serves, bytes}
use blobseer.Client.Cover.{plan-Tiles}
use blobseer.Client.Fetched.{fetch_found, Gives, GivesOrFails}
use blobseer.Client.Fetches.{PageRequest, provider_read, fetched, fetch, accepted}
use blobseer.Client.Listed.{every_location, Named, page_locations-Perm}
use blobseer.Client.Locations.{PageLocation, page_locations}
use blobseer.Client.Plan.{nbr_vadv, plan}
use blobseer.Client.Reads.{Memory, query_root, locate, read}
use blobseer.Client.Steps.{ticket_of, Returns, IsOrdered, exec_write-IsOrdered}
use blobseer.Client.Tiles.{Fits, Reaches}
use blobseer.Client.Writes.{rpc_write_callback, exec_write}
use blobseer.Client.Written.{rpc_write_callback_iff}
use text.Mathlib.Text.{◌==◌ as str_eq}
use blobseer.RangeQuery.{Put, read_node}
use blobseer.RangeQuery.Reads.{leaf_callback, read_callback, read_record_locations}
use blobseer.RangeQuery.Records.{leaf}
use blobseer.RangeQuery.Replicas.{RandomSelect, set_providers}
use blobseer.Rpc.{Buffer, get_value}
use blobseer.Structures.{
  Provider, Query, Root, make_root, same_query, intersects, is_empty_provider,
}
use blobseer.Tests.Codecs.{codec, tree_node, provider, list, version_manager, decode_char}
use blobseer.VManager.{Reply}
use blobseer.VManager.Rpcs.{Request}
use blobseer.Prelude.{
  ℕ, zero, suc, ◌+◌, ◌≤◌, ◌<◌, ◌≡◌, ◌↔◌, refl, Bool, true, false, Option, some, List, [], ◌∷◌, All,
  Any, inl, inr, arith, ◌==◌, if◌then◌else◌,
}

abbrev host_a : Provider
host_a = record { host = "a"; service = "1" }

abbrev host_b : Provider
host_b = record { host = "b"; service = "2" }

abbrev page_root : Root
page_root = record (make_root 1 1 4 4 1) { current_size = 4 }

abbrev page_key : Query
page_key = record { id = 1; version = 9; offset = 0; size = 4 }

abbrev client : ObjectHandler
client = record {
  id = 1;
  latest_root = page_root;
  version_cache = record { policy = Lru.empty; map = []; m_size = 4 };
  retry_count = 1;
}

abbrev blob : ℕ → ℕ
blob i = 10 + i

-- The table holds the leaf and the replicas of the page.
abbrev table : Query → Buffer
table q =
    if same_query q page_root.node
    then (codec tree_node).encode (leaf page_key)
    else (codec (list provider)).encode (host_a ∷ [])

abbrev vmgr : Request → List Buffer → Answer
vmgr r params = (0, [])

abbrev number_in : Buffer → ℕ
number_in (x ∷ n ∷ []) = n
number_in _ = 0

-- Every provider has the page.
abbrev page_net : Provider → PageRequest → List Buffer → Answer
page_net p call (k ∷ s ∷ n ∷ []) = (0, bytes blob (0 + number_in s) (number_in n) ∷ [])
page_net p call _ = (0, bytes blob 0 4 ∷ [])

abbrev first_choice : ℕ → ℕ → ℕ
first_choice i n = 0

abbrev blank : Memory
blank k = 0

abbrev found_page : List RandomSelect
found_page = record { providers = host_a ∷ []; page_key = page_key } ∷ []

plan-Tiles_example :
    All (Fits 4 3 7) (plan 4 3 7 (nbr_vadv 4 3 7))
    × ((k : ℕ) → k < 7 → Any (Reaches k) (plan 4 3 7 (nbr_vadv 4 3 7)))
plan-Tiles_example = plan-Tiles 4 3 7 (omega arith) (omega arith) (omega arith) (omega arith)

served : (j : ℕ) → j < 1 → Serves version_manager page_net blob 4 1 found_page j
unfolding is_empty_provider accepted
served zero lt = record {
  some_replica = omega arith;
  whole = ((refl, refl), tt);
  part = λ start count le. ((refl, refl), tt);
}
served (suc j) lt = absurd (omega arith)

program : Unit {0}
unfolding read_record_locations read_callback read_node leaf_callback set_providers get_value
    intersects same_query is_empty_provider accepted query_root decode_char
program = tt

page_located :
    locate (codec tree_node) (codec (list provider)) table 2 page_root 1 2 ≡ some (true, found_page)
unfolding program
page_located = refl

root_found : query_root version_manager vmgr 0 client ≡ ((true, page_root), client)
unfolding program
root_found = refl

-- Bytes 1 and 2 of the page.
client_read_lem_example :
    (mem : Memory) × (read version_manager vmgr
        (codec tree_node)
        (codec (list provider))
        table
        2
        first_choice
        page_net
        1
        2
        blank
        0
        client
      ≡ (returned (some mem), client))
    × ((k : ℕ) → k < 2 → mem k ≡ blob (1 + k))
    × ((k : ℕ) → 2 ≤ k → mem k ≡ 0)
client_read_lem_example =
    client_read_lem version_manager vmgr (codec tree_node) (codec (list provider)) table 2
      first_choice page_net 1 2 blank 0 client client page_root found_page blob root_found
      (omega arith) (omega arith) (omega arith) (omega arith) (omega arith) (omega arith)
      page_located refl served

-- The first host fails, the second has the page.
abbrev half_net : Provider → PageRequest → List Buffer → Answer
half_net p call params = if str_eq p.host "b" then (0, bytes blob 0 4 ∷ []) else (7, [])

abbrev two_hosts : RandomSelect
two_hosts = record { providers = host_a ∷ host_b ∷ []; page_key = page_key }

half_serves :
    All (GivesOrFails half_net provider_read (bytes blob 0 4) ([] ∷ [])) (host_a ∷ host_b ∷ [])
unfolding is_empty_provider accepted
half_serves = ((refl, inr refl), ((refl, inl refl), tt))

one_serves : Any (Gives half_net provider_read (bytes blob 0 4) ([] ∷ [])) (host_a ∷ host_b ∷ [])
unfolding is_empty_provider accepted
one_serves = inr (inl (refl, refl))

fetch_found_example :
    fetch (λ n. 0) half_net provider_read ([] ∷ []) two_hosts ≡ some (fetched (bytes blob 0 4))
fetch_found_example =
    fetch_found (λ n. 0) half_net provider_read (bytes blob 0 4) [] two_hosts half_serves one_serves

abbrev attempts : ℕ → ℕ
attempts n = if n == 2 then 0 else 7

rpc_write_callback_iff_example :
    (rpc_write_callback attempts 3 0 (attempts 0) ≡ true)
    ↔ ((n : ℕ) × (0 ≤ n) × (n ≤ 0 + 3) × (attempts n ≡ 0))
rpc_write_callback_iff_example = rpc_write_callback_iff attempts 3 0

abbrev good_publisher : List Buffer → Answer
good_publisher params = (0, (codec (list provider)).encode (host_a ∷ []) ∷ [])

abbrev good_net : ℕ → Provider → List Buffer → ℕ
good_net n p params = 0

abbrev good_tree : Reply → List Provider → List Query → Option (Bool × List Put)
good_tree reply adv deque = some (true, [])

abbrev ticket_range : Query
ticket_range = record { id = 1; version = 3; offset = 0; size = 4 }

abbrev ticket_reply : Reply
ticket_reply = record {
  intervals = record { key = ticket_range; root = make_root 1 3 4 4 1; completed = false } ∷ [];
  root_size = 4;
  stable_root = make_root 1 0 4 4 1;
}

-- The version manager gives a ticket.
abbrev ticket_vmgr : Request → List Buffer → Answer
ticket_vmgr r params = (0, version_manager.reply.encode ticket_reply ∷ [])

exec_write-IsOrdered_example :
    Returns
      (IsOrdered
        (record { id = 1; version = 9; offset = 0; size = 4 })
        4
        (ticket_of version_manager ticket_vmgr
          (record { id = 1; version = 9; offset = 0; size = 4 })
          false).1.intervals
        client)
      (exec_write version_manager
        (codec (list provider))
        ticket_vmgr
        good_publisher
        good_net
        good_tree
        0
        4
        blob
        false
        9
        client)
exec_write-IsOrdered_example =
    exec_write-IsOrdered version_manager (codec (list provider)) ticket_vmgr good_publisher good_net
      good_tree 0 4 blob false 9 client (omega arith)

two_hosts-Named : Named two_hosts
unfolding is_empty_provider
two_hosts-Named = (refl, (refl, tt))

page_locations-Perm_example :
    (ls : List PageLocation) × (page_locations (λ i n. i + n) 4 0 (two_hosts ∷ two_hosts ∷ [])
      ≡ some ls)
    × Perm ls (every_location 4 0 (two_hosts ∷ two_hosts ∷ []))
page_locations-Perm_example =
    page_locations-Perm (λ i n. i + n) 4 0 (two_hosts ∷ two_hosts ∷ []) (omega arith)
      (two_hosts-Named, (two_hosts-Named, tt)) (omega arith)
