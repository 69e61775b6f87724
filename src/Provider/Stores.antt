-- ===== src/Provider/Stores.antt =====
-- What the page manager (provider/page_manager.hpp) asks of the store of its pages, its template
-- parameter `Persistency`, and the laws of a store that is a map with a bounded capacity.
use blobseer.Rpc.{Buffer}
use blobseer.Rpc.Buffers.{buffer_discrete}
use blobseer.Prelude.{ℕ, suc, ◌≡◌, ite, Bool, true, false, Option, some}

pub record Persistency : Type 1 where
  pub State : Type 0
  pub read : Buffer → State → Option Buffer × State
  pub write : Buffer → Buffer → State → Bool × State
  pub get_free : State → ℕ

-- A write that succeeds binds the key, and one that fails changes no page. `Inv n s` says that the
-- state is sound and takes `n` more writes, as far as the number of pages goes.
pub record IsMap (p : Persistency) : Type 1 where
  pub Inv : ℕ → p.State → Type 0
  pub contents : p.State → Buffer → Option Buffer
  pub read-contents :
      (n : ℕ) (k : Buffer) (s : p.State)
      → Inv n s
      → Inv n (p.read k s).1
        × ((p.read k s).0 ≡ contents s k)
        × ((j : Buffer) → contents (p.read k s).1 j ≡ contents s j)
  pub write-stored :
      (n : ℕ) (k v : Buffer) (s : p.State)
      → Inv (suc n) s
      → (p.write k v s).0 ≡ true
      → Inv n (p.write k v s).1
        × ((j : Buffer)
            → contents (p.write k v s).1 j ≡ ite (buffer_discrete j k) (some v) (contents s j))
  pub write-refused :
      (n : ℕ) (k v : Buffer) (s : p.State)
      → Inv (suc n) s
      → (p.write k v s).0 ≡ false
      → Inv n (p.write k v s).1 × ((j : Buffer) → contents (p.write k v s).1 j ≡ contents s j)
