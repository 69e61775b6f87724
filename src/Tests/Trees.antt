-- ===== src/Tests/Trees.antt =====
-- The theorems on the trees of versions, at a tree of four pages of 4 bytes.
use blobseer.RangeQuery.{compute_sibling_versions}
use blobseer.RangeQuery.Pending.{Siblings, compute_sibling_versions_lem}
use blobseer.RangeQuery.Placement.{node_at}
use blobseer.RangeQuery.Tree.{tree}
use blobseer.RangeQuery.Leaves.{page_keys, page_puts, write_record_locations-tree}
use blobseer.RangeQuery.Records.{
  left_leaf, right_leaf, left_siblings, right_siblings, write_record_locations,
}
use blobseer.RangeQuery.{node_put, sibling_versions, first_hit, brother_of}
use blobseer.RangeQuery.{Put, page_put}
use blobseer.RangeQuery.ReadBack.{write-read_record_locations}
use blobseer.RangeQuery.Reads.{read_record_locations}
use blobseer.RangeQuery.Replicas.{RandomSelect, null_select}
use blobseer.RangeQuery.RoundTrip.{chosen}
use blobseer.RangeQuery.Served.{Serves}
use blobseer.Rpc.{Buffer}
use blobseer.Structures.{
  Query, Provider, null_root, make_root, intersects, search_list, is_empty_query, same_query,
}
use blobseer.Tests.Codecs.{codec, tree_node, provider, list}
use blobseer.VManager.{Reply}
use blobseer.VManager.Intervals.{Entry}
use blobseer.Prelude.{
  ◌^◌, ◌*◌, map, ◌++◌, ℕ, Bool, ◌≡◌, refl, true, false, some, List, [], ◌∷◌, reverse, All, arith,
  ◌+◌, ◌≤◌, get_or, if◌then◌else◌,
}

abbrev all_good : ℕ → Bool
all_good n = true

abbrev left_sibling : Query
left_sibling = record { id = 1; version = 3; offset = 0; size = 4 }

abbrev pending : Entry
pending = record {
  key = record { id = 1; version = 3; offset = 0; size = 4 };
  root = null_root;
  completed = false;
}

compute_sibling_versions_lem_example :
    (l : List Query) × (compute_sibling_versions (node_at 1 7 4 1) (pending ∷ []) (4 * 2 ^ 2)
      ≡ some l)
    × Siblings (reverse (pending ∷ [])) 1 7 2 4 1 l
compute_sibling_versions_lem_example =
    compute_sibling_versions_lem (pending ∷ []) 1 7 4 1 2 (omega arith) (omega arith) (omega arith)

program : Unit {0}
unfolding left_siblings right_siblings compute_sibling_versions sibling_versions first_hit
    brother_of intersects search_list is_empty_query same_query
program = tt

-- The first write to the blob 1: two pages.
abbrev first_write : Entry
first_write = record {
  key = record { id = 1; version = 1; offset = 0; size = 8 };
  root = make_root 1 1 4 16 1;
  completed = false;
}

abbrev ticket : Reply
ticket = record { intervals = first_write ∷ []; root_size = 16; stable_root = make_root 1 0 4 0 1 }

abbrev hosts : List Provider
hosts = record { host = "a"; service = "1" } ∷ record { host = "b"; service = "2" } ∷ []

abbrev nothing : Query → Buffer
nothing q = []

left_found :
    left_siblings
      (codec tree_node)
      nothing
      9
      (left_leaf first_write.key 4)
      []
      16
      ticket.stable_root
      (node_at 1 1 4 0)
    ≡ some (ticket.stable_root.node ∷ [])
unfolding program
left_found = refl

right_found :
    right_siblings
      (codec tree_node)
      nothing
      9
      (right_leaf first_write.key 4)
      []
      16
      ticket.stable_root
      (node_at 1 1 4 1)
    ≡ some []
unfolding program
right_found = refl

write_record_locations-tree_example :
    write_record_locations
      (codec tree_node)
      nothing
      9
      all_good
      true
      ticket
      hosts
      (page_keys 1 0 4 0 2)
    ≡ some (
      true,
      page_puts 1 0 1 4 0 1 hosts 0 2
          ++ map (λ (p, t). node_put p t) (tree 1 1 (ticket.stable_root.node ∷ []) [] 2 4 0 1),
    )
write_record_locations-tree_example =
    write_record_locations-tree (codec tree_node) nothing 9 all_good true ticket hosts 1 0 4 0 1 2
      first_write [] (ticket.stable_root.node ∷ []) [] (λ k. refl) refl (omega arith) (omega arith)
      refl (omega arith) (omega arith) (omega arith) left_found right_found

abbrev first_puts : List Put
first_puts =
    page_puts 1 0 1 4 0 1 hosts 0 2
    ++ map (λ (p, t). node_put p t) (tree 1 1 (ticket.stable_root.node ∷ []) [] 2 4 0 1)

-- A table that holds some puts.
abbrev holds : List Put → Query → Buffer
holds [] q = []
holds (page_put k l ∷ puts) q =
    if same_query k q then (codec (list provider)).encode l else holds puts q
holds (node_put k n ∷ puts) q = if same_query k q then (codec tree_node).encode n else holds puts q

puts_served : All (Serves (codec tree_node) (codec (list provider)) (holds first_puts)) first_puts
unfolding program tree
puts_served = (refl, (refl, (refl, (refl, (refl, (refl, tt))))))

first_written :
    write_record_locations
      (codec tree_node)
      nothing
      9
      all_good
      true
      ticket
      hosts
      (page_keys 1 0 4 0 2)
    ≡ some (true, first_puts)
first_written =
    write_record_locations-tree (codec tree_node) nothing 9 all_good true ticket hosts 1 0 4 0 1 2
      first_write [] (ticket.stable_root.node ∷ []) [] (λ k. refl) refl (omega arith) (omega arith)
      refl (omega arith) (omega arith) (omega arith) left_found right_found

abbrev two_leaves : List RandomSelect
two_leaves = null_select ∷ null_select ∷ []

write-read_record_locations_example :
    (leaves : List RandomSelect) × (read_record_locations
        (codec tree_node)
        (codec (list provider))
        (holds first_puts)
        3
        two_leaves
        (record { id = 1; version = 1; offset = 0; size = 8 })
        first_write.root
      ≡ some (true, leaves))
    × ((j : ℕ)
        → j ≤ 1
        → get_or leaves j null_select
          ≡ chosen
              (codec tree_node)
              (codec (list provider))
              (holds first_puts)
              1
              0
              1
              4
              0
              1
              hosts
              (0 + j))
write-read_record_locations_example =
    write-read_record_locations (codec tree_node) (codec (list provider)) nothing (holds first_puts)
      9 3 all_good true ticket hosts 1 0 4 0 1 2 first_write [] (ticket.stable_root.node ∷ []) []
      first_puts (record { id = 1; version = 1; offset = 0; size = 8 }) first_write.root two_leaves
      (λ k. refl) refl (omega arith) (omega arith) refl (omega arith) (omega arith) (omega arith)
      (omega arith) left_found right_found first_written puts_served (omega arith) (omega arith)
      refl refl refl (omega arith)
