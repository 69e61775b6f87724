-- ===== src/Tests/Caches.antt =====
-- The theorems on the cache, at a concrete cache with the LRU policy.
use blobseer.Cache
use blobseer.Cache.{Cache, Calls, write, read, free, resize, stored}
use blobseer.Cache.Eviction.{IsQueue, forget}
use blobseer.Cache.Keys.{is_some}
use blobseer.Cache.Lru.{lru, empty, hit, invalidate, evict_entry, erase_node}
use blobseer.Cache.Lru.Laws.{lru-IsQueue}
use blobseer.Cache.Valid.{IsValid, clear-IsValid, order, read_lem}
use blobseer.Cache.Writes.{Wrote, write_lem}
use blobseer.Cache.Resizes.{resize_smaller}
use blobseer.Prelude.Map.{find, insert, erase}
use mathlib.Core.Option
use blobseer.Prelude.{
  ℕ, ◌≡◌, refl, true, some, [], ◌∷◌, ◌++◌, arith, if◌then◌else◌, ℕ_discrete as dec,
}

program : Unit {0}
unfolding write read free resize hit invalidate evict_entry erase_node find insert erase dec
program = tt

abbrev none_yet : Cache ℕ ℕ (lru dec)
none_yet = record { policy = empty; map = []; m_size = 2 }

lru-IsQueue_example : IsQueue dec (lru dec)
lru-IsQueue_example = lru-IsQueue dec

abbrev queue : IsQueue dec (lru dec)
queue = lru-IsQueue_example

none_yet-IsValid : IsValid dec (lru dec) (lru-IsQueue dec) none_yet
unfolding blobseer.Cache.clear blobseer.Cache.Lru.clear
none_yet-IsValid = clear-IsValid dec (lru dec) (lru-IsQueue dec) none_yet

-- Two writes and a read.
first : (write dec (lru dec) 0 1 10 true none_yet).0 ≡ true
unfolding program
first = refl

write_run :
    (write dec
      (lru dec)
      0
      3
      30
      true
      (read dec
        (lru dec)
        1
        (write dec (lru dec) 0 2 20 true (write dec (lru dec) 0 1 10 true none_yet).1).1).1).2
    ≡ (2, 20) ∷ []
unfolding program
write_run = refl

write_lem_example :
    (c' : Cache ℕ ℕ (lru dec)) × (calls : Calls ℕ ℕ) × (write dec (lru dec) 0 1 10 true none_yet
      ≡ (true, c', calls))
    × IsValid dec (lru dec) (lru-IsQueue dec) c'
    × Wrote dec (lru dec) (lru-IsQueue dec) 1 10 true none_yet c' calls
write_lem_example =
    write_lem dec (lru dec) (lru-IsQueue dec) 1 none_yet none_yet-IsValid 0 10 true (omega arith)

read_lem_example :
    IsValid dec (lru dec) (lru-IsQueue dec) (read dec (lru dec) 7 none_yet).1
    × ((read dec (lru dec) 7 none_yet).0 ≡ Option.map (λ e. e.0) (find dec 7 none_yet.map))
    × ((read dec (lru dec) 7 none_yet).1.map ≡ none_yet.map)
    × (order dec (lru dec) (lru-IsQueue dec) (read dec (lru dec) 7 none_yet).1 ≡ (
        if is_some (find dec 7 none_yet.map)
        then forget dec 7 (order dec (lru dec) (lru-IsQueue dec) none_yet) ++ 7 ∷ []
        else order dec (lru dec) (lru-IsQueue dec) none_yet))
read_lem_example = read_lem dec (lru dec) (lru-IsQueue dec) none_yet none_yet-IsValid 7

resize_smaller_example : resize dec (lru dec) 0 1 none_yet ≡ some (true, none_yet, [])
resize_smaller_example =
    resize_smaller dec (lru dec) (lru-IsQueue dec) none_yet 0 1 none_yet-IsValid (omega arith)
