-- ===== src/Provider/Memory.antt =====
-- provider/null_bw_map.cpp: the store in memory, a cache that evicts nothing and grows by one slot
-- when it is full, with an account of the space left.
pub mod Laws
use blobseer.Cache
use blobseer.Cache.Eviction.{no_policy}
use blobseer.Cache.{Cache, Calls}
use blobseer.Provider.Stores.{Persistency}
use blobseer.Rpc.{Buffer}
use blobseer.Rpc.Buffers.{buffer_discrete}
use blobseer.Prelude.{
  ℕ, ◌+◌, ◌-◌, ◌%◌, Bool, true, false, Option, none, some, [], length, u32, ltb, ◌==◌,
  if◌then◌else◌,
}

abbrev pub Pages : Type 0
Pages = Cache Buffer Buffer (no_policy Buffer)

pub record Memory : Type 0 where
  pub buffer_wrapper_cache : Pages
  pub space_left : ℕ

-- `null_bw_map(cache_size, m)`; the size of a cache is a 32-bit word.
unfoldable pub new_memory : ℕ → ℕ → Memory
new_memory cache_size m = record {
  buffer_wrapper_cache = record { policy = tt; map = []; m_size = cache_size % u32 };
  space_left = m;
}

unfoldable pub get_free : Memory → ℕ
get_free s = s.space_left

unfoldable pub read : Buffer → Memory → Option Buffer × Memory
read k s =
    let (found, c) = Cache.read buffer_discrete (no_policy Buffer) k s.buffer_wrapper_cache in
    (found, record s { buffer_wrapper_cache = c })

-- The cache that a resize leaves.
abbrev pub resized : Pages → Option (Bool × Pages × Calls Buffer Buffer) → Pages
resized c none = c
resized c (some (ok, c', calls)) = c'

-- A slot more where the cache is full.
abbrev pub widened : Pages → Pages
widened c =
    let n = Cache.size buffer_discrete (no_policy Buffer) c in
    if Cache.max_size buffer_discrete (no_policy Buffer) c == n
    then resized c (Cache.resize buffer_discrete (no_policy Buffer) [] ((n + 1) % u32) c)
    else c

unfoldable pub write : Buffer → Buffer → Memory → Bool × Memory
write k v s = if ltb s.space_left (length v) then (false, s) else (
  true,
  record {
    buffer_wrapper_cache =
        (Cache.write buffer_discrete (no_policy Buffer) [] k v true
          (widened s.buffer_wrapper_cache)).1;
    space_left = s.space_left - length v;
  },
)

abbrev pub memory : Persistency
memory = record { State = Memory; read = read; write = write; get_free = get_free }
