-- ===== src/Provider/Memory/Laws.antt =====
-- The store in memory (provider/null_bw_map.cpp): its pages and its account of the space left.
use blobseer.Cache
use blobseer.Cache.Eviction.{no_policy}
use blobseer.Cache.Keys.{
  Unique, find-erase, find-insert, length-erase, length-insert, Unique-erase, Unique-insert,
}
use blobseer.Provider.Memory.{Memory, get_free, Pages, new_memory, read, write, widened, memory}
use blobseer.Provider.Stores.{IsMap}
use blobseer.Prelude.Map.{find, erase, insert}
use blobseer.Rpc.{Buffer}
use blobseer.Rpc.Buffers.{buffer_discrete}
use mathlib.Core.Option
use blobseer.Prelude.{
  ℕ, suc, ◌+◌, ◌%◌, ◌-◌, ◌≤◌, ◌<◌, ◌≡◌, refl, ◌∙◌, inl, inr, ite, if_pos, Bool, true, false, Option,
  some, List, [], ◌∷◌, length, Option-cases, Bool-cases, arith, u32, ltb, leb, if◌then◌else◌, ◌==◌,
}

-- No page twice, and no more pages than slots.
pub record IsValid (c : Pages) : Type 0 where
  pub unique : Unique buffer_discrete c.map
  pub bounded : length c.map ≤ c.m_size

-- The cache that `write` leaves.
abbrev pub after : Buffer → Buffer → Pages → Pages
after k v c = record (widened c) {
  map = insert buffer_discrete k (v, true) (erase buffer_discrete k c.map);
}

widened_lem :
    (c : Pages)
    → IsValid c
    → suc (length c.map) < u32
    → ((widened c).map ≡ c.map) × (length c.map < (widened c).m_size)
unfolding Cache.size Cache.max_size Cache.resize
widened_lem c v small = elim (Bool-cases (c.m_size == length c.map)) [
  | inl full ↦
      let grows : ltb c.m_size ((length c.map + 1) % u32) ≡ true = ground arith in
      rw (full, grows) (refl, omega arith)
  | inr room ↦ rw room (refl, ground (arith, v.bounded))
]

-- A write of a page finds a slot.
write_slot :
    (k w : Buffer) (c : Pages)
    → IsValid c
    → suc (length c.map) < u32
    → (Cache.write buffer_discrete (no_policy Buffer) [] k w true (widened c)).1 ≡ after k w c
unfolding Cache.write
write_slot k w c v small =
    let (same, room) = widened_lem c v small in
    let open_slot : (length (erase buffer_discrete k c.map) == (widened c).m_size) ≡ false =
      ground (arith, length-erase buffer_discrete k c.map v.unique) in
    rw (same, open_slot) refl

after-IsValid :
    (k w : Buffer) (c : Pages)
    → IsValid c
    → suc (length c.map) < u32
    → IsValid (after k w c) × (length (after k w c).map ≤ suc (length c.map))
after-IsValid k w c v small =
    let (same, room) = widened_lem c v small in
    let gone = find-erase buffer_discrete k k c.map ∙ if_pos (buffer_discrete k k) refl _ _ in
    let sizes = length-insert buffer_discrete k (w, true) (erase buffer_discrete k c.map) gone in
    let smaller = length-erase buffer_discrete k c.map v.unique in
    (
      record {
        unique =
            Unique-insert buffer_discrete k (w, true) (erase buffer_discrete k c.map) gone
              (Unique-erase buffer_discrete k c.map v.unique);
        bounded = omega (arith, sizes, smaller, room);
      },
      omega (arith, sizes, smaller),
    )

-- The page that the store holds for a key.
abbrev pub page_of : Memory → Buffer → Option Buffer
page_of s j = Option.map (λ e. e.0) (find buffer_discrete j s.buffer_wrapper_cache.map)

abbrev pub Inv : ℕ → Memory → Type 0
Inv n s = IsValid s.buffer_wrapper_cache × (length s.buffer_wrapper_cache.map + n < u32)

page_of-after :
    (k w : Buffer) (s : Memory) (left : ℕ) (j : Buffer)
    → page_of
        (record { buffer_wrapper_cache = after k w s.buffer_wrapper_cache; space_left = left })
        j
      ≡ ite (buffer_discrete j k) (some w) (page_of s j)
page_of-after k w s left j =
    let m = s.buffer_wrapper_cache.map in
    let gone = find-erase buffer_discrete k k m ∙ if_pos (buffer_discrete k k) refl _ _ in
    let bound = find-insert buffer_discrete j k (w, true) (erase buffer_discrete k m) gone in
    let others = find-erase buffer_discrete j k m in ground (arith, bound, others)

pub stored-Inv :
    (n : ℕ) (k w : Buffer) (s : Memory)
    → Inv (suc n) s
    → (write k w s).0 ≡ true
    → Inv n (write k w s).1
      × ((j : Buffer)
          → page_of (write k w s).1 j ≡ ite (buffer_discrete j k) (some w) (page_of s j))
unfolding write
stored-Inv n k w s (v, small) h =
    let c = s.buffer_wrapper_cache in
    let slot = write_slot k w c v (omega arith) in
    elim (Bool-cases (ltb s.space_left (length w))) [
      | inl full ↦ absurd (cc (rw full at h))
      | inr space ↦
          let (v', len) = after-IsValid k w c v (omega arith) in
          rw (space, slot)
            ((v', omega (arith, len)), λ j. page_of-after k w s (s.space_left - length w) j)
    ]

pub refused-Inv :
    (n : ℕ) (k w : Buffer) (s : Memory)
    → Inv (suc n) s
    → (write k w s).0 ≡ false
    → Inv n (write k w s).1 × ((j : Buffer) → page_of (write k w s).1 j ≡ page_of s j)
unfolding write
refused-Inv n k w s (v, small) h = elim (Bool-cases (ltb s.space_left (length w))) [
  | inl full ↦ rw full ((v, omega arith), λ j. refl)
  | inr space ↦ absurd (cc (rw space at h))
]

pub read-Inv :
    (n : ℕ) (k : Buffer) (s : Memory)
    → Inv n s
    → Inv n (read k s).1
      × ((read k s).0 ≡ page_of s k)
      × ((j : Buffer) → page_of (read k s).1 j ≡ page_of s j)
unfolding read Cache.read
read-Inv n k s (v, small) =
    elim (Option-cases (find buffer_discrete k s.buffer_wrapper_cache.map)) [
      | inl e ↦
          rw (e, read, Cache.read)
            ((record { unique = v.unique; bounded = v.bounded }, small), refl, λ j. refl)
      | inr (x, e) ↦
          rw (e, read, Cache.read)
            ((record { unique = v.unique; bounded = v.bounded }, small), refl, λ j. refl)
    ]

-- The store in memory is a map of pages, as long as it holds fewer than 2^32 - 1 of them.
unfoldable pub memory_map : IsMap memory
memory_map = record {
  Inv = Inv;
  contents = page_of;
  read-contents = read-Inv;
  write-stored = stored-Inv;
  write-refused = refused-Inv;
}

-- A write to a store in memory of fewer than 2^32 - 1 pages succeeds exactly if the page fits the
-- space left. Then its key has the page, and the space is less by its size, even if the key had a
-- page before; if not the space stays. No other key is touched, and the store stays valid.
pub memory_write_lem :
    (n : ℕ) (k w : Buffer) (s : Memory)
    → Inv (suc n) s
    → let fits = leb (length w) s.space_left in
      Inv n (write k w s).1
      × ((write k w s).0 ≡ fits)
      × (get_free (write k w s).1 ≡ (if fits then s.space_left - length w else s.space_left))
      × ((j : Buffer)
          → page_of (write k w s).1 j
            ≡ (if fits then ite (buffer_discrete j k) (some w) (page_of s j) else page_of s j))
unfolding get_free
memory_write_lem n k w s v = elim (Bool-cases (leb (length w) s.space_left)) [
  | inl fits ↦
      let fit : ltb s.space_left (length w) ≡ false = ground arith in
      let ok : (write k w s).0 ≡ true = unfold write in rw fit refl in
      let left : (write k w s).1.space_left ≡ s.space_left - length w =
        unfold write in rw fit refl in
      let (v', pages) = stored-Inv n k w s v ok in rw fits (v', ok, left, pages)
  | inr big ↦
      let over : ltb s.space_left (length w) ≡ true = ground arith in
      let no : (write k w s).0 ≡ false = unfold write in rw over refl in
      let left : (write k w s).1.space_left ≡ s.space_left = unfold write in rw over refl in
      let (v', pages) = refused-Inv n k w s v no in rw big (v', no, left, pages)
]

-- The bytes of all pages.
unfoldable pub used : List (Buffer × (Buffer × Bool)) → ℕ
used [] = 0
used ((k, (w, d)) ∷ m) = length w + used m

used-erase :
    (k : Buffer) (m : List (Buffer × (Buffer × Bool))) → used (erase buffer_discrete k m) ≤ used m
unfolding used erase
used-erase k [] = omega arith
used-erase k ((j, (w, d)) ∷ m) = ground (arith, used-erase k m)

used-insert :
    (k w : Buffer) (m : List (Buffer × (Buffer × Bool)))
    → used (insert buffer_discrete k (w, true) m) ≤ length w + used m
unfolding used insert
used-insert k w [] = omega arith
used-insert k w ((j, (x, d)) ∷ m) = ground (arith, used-insert k w m)

-- The pages of a list, written one after the other; a refused one is left out.
unfoldable pub write_all : List (Buffer × Buffer) → Memory → Memory
write_all [] s = s
write_all ((k, w) ∷ rest) s = write_all rest (write k w s).1

write-used :
    (n : ℕ) (k w : Buffer) (s : Memory)
    → Inv (suc n) s
    → Inv n (write k w s).1
      × (used (write k w s).1.buffer_wrapper_cache.map + (write k w s).1.space_left
          ≤ used s.buffer_wrapper_cache.map + s.space_left)
unfolding write
write-used n k w s (v, small) =
    let c = s.buffer_wrapper_cache in
    let slot = write_slot k w c v (omega arith) in
    elim (Bool-cases (ltb s.space_left (length w))) [
      | inl full ↦ rw full ((v, omega arith), omega arith)
      | inr space ↦
          let (v', len) = after-IsValid k w c v (omega arith) in
          let fits : length w ≤ s.space_left = ground arith in
          rw (space, slot)
            (
              (v', omega (arith, len)),
              omega (
                arith,
                used-insert k w (erase buffer_discrete k c.map),
                used-erase k c.map,
                fits,
              ),
            )
    ]

all-used :
    (ws : List (Buffer × Buffer)) (s : Memory)
    → Inv (length ws) s
    → used (write_all ws s).buffer_wrapper_cache.map + (write_all ws s).space_left
      ≤ used s.buffer_wrapper_cache.map + s.space_left
unfolding write_all
all-used [] s v = omega arith
all-used ((k, w) ∷ rest) s v =
    let (v', le) = write-used (length rest) k w s v in
    omega (arith, le, all-used rest (write k w s).1 v')

-- A store in memory with a capacity of `m` bytes holds at most `m` bytes, and answers at most what
-- is left of them as its free space, after any sequence of fewer than 2^32 writes.
pub capacity :
    (cache_size m : ℕ) (ws : List (Buffer × Buffer))
    → length ws < u32
    → used (write_all ws (new_memory cache_size m)).buffer_wrapper_cache.map
        + get_free (write_all ws (new_memory cache_size m))
      ≤ m
unfolding new_memory used get_free
capacity cache_size m ws small =
    let le =
      all-used ws (new_memory cache_size m)
        (record { unique = tt; bounded = omega arith }, omega (arith, small)) in
    omega (arith, le)
