-- ===== src/Tests/Pages.antt =====
-- The theorems on the providers, at a store in memory with room for 10 bytes.
use blobseer.Provider.{
  PageManager, Event, provider_read, provider_write, write_page, read_page, read_partial_page,
  pushed,
}
use blobseer.Provider.Listener.{Listener, Reports, update_events, update_events-Reports}
use blobseer.Provider.Memory.{new_memory, get_free, memory}
use blobseer.Provider.Memory.Laws.{
  memory_map, memory_write_lem, Inv, capacity, used, write_all, page_of,
}
use blobseer.Provider.Pages.{Written, write_page_lem, read_page_lem, pairs_no, present_no}
use blobseer.Provider.Partial.{read_partial_page_lem, read_partial_page-wraps}
use blobseer.Prelude.Map.{find}
use blobseer.Rpc.{Buffer, returns}
use blobseer.Rpc.Buffers.{buffer_discrete}
use blobseer.Rpc.{same_bytes}
use blobseer.Rpc.Status
use blobseer.Tests.Codecs.{provider_manager as codecs, codec, number}
use blobseer.Prelude.{
  ℕ, ◌+◌, ◌-◌, ◌%◌, ◌≤◌, ◌≡◌, ite, refl, Bool, true, some, List, [], ◌∷◌, length, map, take, drop,
  u32, u64, leb, ◌==◌, if◌then◌else◌, arith,
}

capacity_example :
    used (write_all ((1 ∷ [], 5 ∷ 6 ∷ []) ∷ []) (new_memory 0 10)).buffer_wrapper_cache.map
      + get_free (write_all ((1 ∷ [], 5 ∷ 6 ∷ []) ∷ []) (new_memory 0 10))
    ≤ 10
capacity_example = capacity 0 10 ((1 ∷ [], 5 ∷ 6 ∷ []) ∷ []) (omega arith)

abbrev empty : PageManager memory ℕ
empty = record {
  page_cache = record {
    buffer_wrapper_cache = record { policy = tt; map = []; m_size = 0 };
    space_left = 10;
  };
  update_hooks = 7 ∷ [];
  calls = [];
}

abbrev stocked : PageManager memory ℕ
stocked = record {
  page_cache = record {
    buffer_wrapper_cache = record {
      policy = tt;
      map = (1 ∷ [], (5 ∷ 6 ∷ 7 ∷ [], true)) ∷ [];
      m_size = 1;
    };
    space_left = 7;
  };
  update_hooks = 7 ∷ [];
  calls = [];
}

empty-Inv : memory_map.Inv 5 empty.page_cache
unfolding memory_map
empty-Inv = (record { unique = tt; bounded = omega arith }, omega arith)

stocked-Inv : memory_map.Inv 5 stocked.page_cache
unfolding memory_map find
stocked-Inv = (record { unique = (refl, tt); bounded = omega arith }, omega arith)

abbrev sent : List Buffer
sent = (1 ∷ []) ∷ (5 ∷ 6 ∷ []) ∷ []

write_page_lem_example :
    (r : Bool × PageManager memory ℕ) × (write_page memory empty
        ((1 ∷ []) ∷ (5 ∷ 6 ∷ []) ∷ [])
        "c"
        []
      ≡ returns (if r.0 then Status.ok else Status.eres) [] r.1)
    × Written memory memory_map empty ((1 ∷ []) ∷ (5 ∷ 6 ∷ []) ∷ []) "c" r
unfolding pairs_no memory_map
write_page_lem_example =
    write_page_lem memory memory_map empty ((1 ∷ []) ∷ (5 ∷ 6 ∷ []) ∷ []) "c" []
      (record { unique = tt; bounded = omega arith }, omega arith) refl (omega arith)

read_page_lem_example :
    let f = memory_map.contents stocked.page_cache in
    (m' : PageManager memory ℕ) × (read_page memory stocked ((1 ∷ []) ∷ (2 ∷ []) ∷ []) "c" []
      ≡ returns
          (if present_no ((1 ∷ []) ∷ (2 ∷ []) ∷ []) f == 2 then Status.ok else Status.eobj)
          (map (λ i. pushed (f i)) ((1 ∷ []) ∷ (2 ∷ []) ∷ []))
          m')
    × memory_map.Inv 5 m'.page_cache
    × ((j : Buffer) → memory_map.contents m'.page_cache j ≡ f j)
read_page_lem_example =
    read_page_lem memory memory_map 5 stocked (1 ∷ []) ((2 ∷ []) ∷ []) "c" [] stocked-Inv

held : memory_map.contents stocked.page_cache (1 ∷ []) ≡ some (5 ∷ 6 ∷ 7 ∷ [])
unfolding memory_map find buffer_discrete same_bytes
held = refl

abbrev outside : Buffer → ℕ → ℕ → Buffer
outside page offset size = 9 ∷ []

abbrev word : ℕ → Buffer
word = (codec number).encode

read_partial_page_lem_example :
    (m' : PageManager memory ℕ) × (read_partial_page memory outside
        (codec number)
        stocked
        ((1 ∷ []) ∷ (codec number).encode 1 ∷ (codec number).encode 2 ∷ [])
        "c"
        []
      ≡ (if leb (1 + 2) 3
          then returns Status.ok (take 2 (drop 1 (5 ∷ 6 ∷ 7 ∷ [])) ∷ []) m'
          else returns Status.eobj [] m'))
    × (1 + 2 ≤ 3 → length (take {A = ℕ} 2 (drop 1 (5 ∷ 6 ∷ 7 ∷ []))) ≡ 2)
read_partial_page_lem_example =
    read_partial_page_lem memory memory_map outside (codec number) 5 stocked (1 ∷ [])
      (5 ∷ 6 ∷ 7 ∷ []) 1 2 "c" [] stocked-Inv held (omega arith) (omega arith)

read_partial_page-wraps_example :
    (m' : PageManager memory ℕ) × (read_partial_page memory outside
        (codec number)
        stocked
        ((1 ∷ []) ∷ (codec number).encode (u64 - 1) ∷ (codec number).encode 2 ∷ [])
        "c"
        []
      ≡ returns Status.ok (outside (5 ∷ 6 ∷ 7 ∷ []) (u64 - 1) (2 % u32) ∷ []) m')
read_partial_page-wraps_example =
    read_partial_page-wraps memory memory_map outside (codec number) 5 stocked (1 ∷ [])
      (5 ∷ 6 ∷ 7 ∷ []) (u64 - 1) 2 "c" [] stocked-Inv held (omega arith) (omega arith) (omega arith)
      (omega arith)

memory_write_lem_example :
    let fits = leb 2 10 in
    Inv 4 (memory.write (1 ∷ []) (5 ∷ 6 ∷ []) empty.page_cache).1
    × ((memory.write (1 ∷ []) (5 ∷ 6 ∷ []) empty.page_cache).0 ≡ fits)
    × (get_free (memory.write (1 ∷ []) (5 ∷ 6 ∷ []) empty.page_cache).1
        ≡ (if fits then 10 - 2 else 10))
    × ((j : Buffer)
        → page_of (memory.write (1 ∷ []) (5 ∷ 6 ∷ []) empty.page_cache).1 j ≡ (
            if fits
            then ite (buffer_discrete j (1 ∷ [])) (some (5 ∷ 6 ∷ [])) (page_of empty.page_cache j)
            else page_of empty.page_cache j))
memory_write_lem_example =
    memory_write_lem 4 (1 ∷ []) (5 ∷ 6 ∷ []) empty.page_cache
      (record { unique = tt; bounded = omega arith }, omega arith)

abbrev seen : List Event
seen =
    record { name = provider_write; free = 8; page_id = []; page_size = 2; sender = "c" }
    ∷ record { name = provider_read; free = 8; page_id = []; page_size = 2; sender = "c" }
    ∷ []

abbrev told : Listener
told = record {
  service = "1234";
  free_space = 10;
  nr_read_pages = 0;
  total_read_size = 0;
  sent = [];
  waits = 0;
}

update_events-Reports_example : Reports told seen (update_events codecs seen told)
update_events-Reports_example = update_events-Reports codecs seen told (omega arith) (omega arith)
