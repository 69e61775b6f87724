-- ===== src/Cache/Resizes.antt =====
-- `resize` of common/cache_mt.hpp on a cache that holds no more than its size.
use blobseer.Cache.Eviction.{Policy, IsQueue}
use blobseer.Cache.Valid.{IsValid}
use blobseer.Cache.{Cache, shrink, resize}
use blobseer.Prelude.{ℕ, ◌≤◌, ◌<◌, ◌≡◌, true, some, [], arith}

module _ {K V : Type 0} (dec : Discrete K) (p : Policy K) (q : IsQueue dec p) where
  -- The loop of `resize` is never entered on a valid cache, so a smaller size changes nothing:
  -- neither the entries nor the number of slots.
  pub resize_smaller :
      (c : Cache K V p) (value : V) (msize : ℕ)
      → IsValid dec p q c
      → msize ≤ c.m_size
      → resize dec p value msize c ≡ some (true, c, [])
  unfolding resize shrink
  resize_smaller c value msize v le = ground (arith, v.bounded)

  -- A larger size is taken over, and the cache stays valid.
  pub resize_larger :
      (c : Cache K V p) (value : V) (msize : ℕ)
      → IsValid dec p q c
      → c.m_size < msize
      → (resize dec p value msize c ≡ some (true, record c { m_size = msize }, []))
        × IsValid dec p q (record c { m_size = msize })
  unfolding resize
  resize_larger c value msize v lt = (
    ground arith,
    record {
      inv = v.inv;
      once = v.once;
      unique = v.unique;
      keys = v.keys;
      sizes = v.sizes;
      bounded = omega (arith, v.bounded);
    },
  )
