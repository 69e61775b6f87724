-- ===== src/VManager/Objects.antt =====
-- The table of objects of the version manager (`obj_hash` of vmanager/vmanagement.hpp): what holds
-- of every object, and what an update or an insertion leaves of the others.
use mathlib.Core.Option.{some-injective}
use blobseer.VManager.{ObjInfo}
use blobseer.Prelude.Map.{find, update, insert}
use blobseer.Prelude.{ℕ, ◌≡◌, subst, if_pos, if_neg, some, List, [], ◌∷◌, All, arith, ℕ_discrete}

pub All-find :
    (P : ObjInfo → Type 0) (id : ℕ) (os : List (ℕ × ObjInfo)) {o : ObjInfo}
    → All (λ (e : ℕ × ObjInfo). P e.1) os
    → find ℕ_discrete id os ≡ some o
    → P o
unfolding find
All-find P id [] h e = absurd (ground arith)
All-find P id ((j, x) ∷ os) {o} h e = elim (ℕ_discrete j id) [
  | yes p ↦ subst P (some-injective x o (rw (if_pos _ p) at e)) h.0
  | no p ↦ All-find P id os h.1 (rw (if_neg _ p) at e)
]

pub All-update :
    (P : ObjInfo → Type 0) (id : ℕ) (o : ObjInfo) (os : List (ℕ × ObjInfo))
    → P o
    → All (λ (e : ℕ × ObjInfo). P e.1) os
    → All (λ (e : ℕ × ObjInfo). P e.1) (update ℕ_discrete id o os)
unfolding update
All-update P id o [] p h = h
All-update P id o ((j, x) ∷ os) p h = ground (arith, All-update P id o os p h.1)

pub All-insert :
    (P : ObjInfo → Type 0) (id : ℕ) (o : ObjInfo) (os : List (ℕ × ObjInfo))
    → P o
    → All (λ (e : ℕ × ObjInfo). P e.1) os
    → All (λ (e : ℕ × ObjInfo). P e.1) (insert ℕ_discrete id o os)
unfolding insert
All-insert P id o [] p h = (p, tt)
All-insert P id o ((j, x) ∷ os) p h = ground (arith, All-insert P id o os p h.1)
