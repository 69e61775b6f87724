-- ===== src/Cache.antt =====
-- common/cache_mt.hpp: the cache over an eviction policy. The lock does not show: every method holds
-- it over all of its accesses, but `resize` gives it up around each call of the eviction callback,
-- where no other thread is taken to come between. The callback is a list of the calls made, in
-- order.
pub mod Eviction
pub mod Lru
pub mod Keys
pub mod Valid
pub mod Writes
pub mod Resizes
use Eviction.{Policy}
use blobseer.Prelude.Map.{find, insert, erase}
use blobseer.Prelude.{
  ℕ, zero, suc, Bool, true, false, Option, none, some, List, [], ◌∷◌, ◌++◌, length, ltb, ◌==◌,
  if◌then◌else◌,
}

-- An entry is a value with its dirty flag.
pub record Cache (K V : Type 0) (p : Policy K) : Type 0 where
  pub policy : p.State
  pub map : List (K × (V × Bool))
  pub m_size : ℕ

abbrev pub Calls : Type 0 → Type 0 → Type 0
Calls K V = List (K × V)

-- `if (ev.second) evict_callback(ek, ev.first)`.
abbrev pub callback : {K V : Type 0} → K → V × Bool → Calls K V
callback k e = if e.1 then (k, e.0) ∷ [] else []

abbrev pub entry_or : {V : Type 0} → V → Option (V × Bool) → V × Bool
entry_or value none = (value, false)
entry_or value (some e) = e

module _ {K V : Type 0} (dec : Discrete K) (p : Policy K) where
  unfoldable pub max_size : Cache K V p → ℕ
  max_size c = c.m_size

  unfoldable pub size : Cache K V p → ℕ
  size c = length c.map

  unfoldable pub clear : Cache K V p → Cache K V p
  clear c = record c { policy = p.clear c.policy; map = [] }

  unfoldable pub read : K → Cache K V p → Option V × Cache K V p
  read k c = elim (find dec k c.map) [
    | none ↦ (none, record c { policy = p.miss k c.policy })
    | some e ↦ (some (e.0), record c { policy = p.hit k c.policy })
  ]

  unfoldable pub free : K → Cache K V p → Cache K V p
  free k c = record c { policy = p.invalidate k c.policy; map = erase dec k c.map }

  -- The end of `write`, once there is room.
  abbrev pub stored : K → V → Bool → Cache K V p → Cache K V p
  stored k v dirty c = record c { policy = p.hit k c.policy; map = insert dec k (v, dirty) c.map }

  -- `value` is what the default constructor of `Value` makes, in case `cache_map[ek]` has no entry.
  unfoldable pub write : V → K → V → Bool → Cache K V p → Bool × Cache K V p × Calls K V
  write value k v dirty c =
      let rest = erase dec k c.map in
      if length rest == c.m_size
      then elim (p.evict_entry c.policy) [
        | none ↦ (false, record c { map = rest }, [])
        | some (ek, s) ↦ (
          true,
          stored k v dirty (record c { policy = s; map = erase dec ek rest }),
          callback ek (entry_or value (find dec ek rest)),
        )
      ]
      else (true, stored k v dirty (record c { map = rest }), [])

  -- The loop of `resize`, on fuel.
  unfoldable pub shrink : V → ℕ → Cache K V p → Calls K V → Option (Bool × Cache K V p × Calls K V)
  shrink value zero c calls = none
  shrink value (suc fuel) c calls =
      if ltb c.m_size (length c.map)
      then elim (p.evict_entry c.policy) [
        | none ↦ some (false, c, calls)
        | some (k, s) ↦
            shrink value fuel (record c { policy = s; map = erase dec k c.map })
              (calls ++ callback k (entry_or value (find dec k c.map)))
      ]
      else some (true, c, calls)

  -- Each round of a loop that finds its key takes an entry away.
  unfoldable pub resize : V → ℕ → Cache K V p → Option (Bool × Cache K V p × Calls K V)
  resize value msize c =
      if ltb c.m_size msize
      then some (true, record c { m_size = msize }, [])
      else shrink value (suc (length c.map)) c []
