-- ===== src/PManager/Table.antt =====
-- The scores and entries of pmanager/adv_manager.hpp, and what the code uses of the
-- boost::multi_index_container over them.
use blobseer.Structures.{Provider}
use blobseer.Prelude.{
  ℕ, ◌≡◌, ite, Bool, true, false, ◌&&◌, ◌||◌, Option, none, some, List, ◌∷◌, All, Any, ltb, ◌==◌,
  if◌then◌else◌,
}

-- `score_entry`.
pub record Score : Type 0 where
  pub score : ℕ
  pub free : ℕ
  pub read_pages : ℕ
  pub read_total : ℕ

-- `score_entry::operator<`.
unfoldable pub lt_score : Score → Score → Bool
lt_score a b =
    if a.free == 0 && b.free == 0
    then ltb a.score b.score
    else if a.free == 0 || ltb b.score a.score
    then false
    else if b.free == 0 || ltb a.score b.score
    then true
    else ltb b.free a.free

-- `table_entry`; the time counts seconds.
pub record Entry : Type 0 where
  pub id : Provider
  pub info : Score
  pub timestamp : ℕ

-- `table_entry(id)`, made at a time.
abbrev pub new_entry : Provider → ℕ → Entry
new_entry id now = record {
  id = id;
  info = record { score = 0; free = 0; read_pages = 0; read_total = 0 };
  timestamp = now;
}

-- The container with its three indices: the one by id is unique, and the two others walk over the
-- same entries. That the walk by info is sorted is no law: `lt_score` is not a strict weak order, and
-- for such a comparison the container promises no order. A theorem that needs one says so.
pub record Index (dec : Discrete Provider) : Type 1 where
  pub Table : Type 0
  pub Inv : Table → Type 0
  pub find : Provider → Table → Option Entry
  pub by_info : Table → List Entry
  pub by_time : Table → List Entry
  pub insert : Entry → Table → Table
  pub replace : Entry → Table → Table
  pub erase : Provider → Table → Table
  pub find-id : (t : Table) (i : Provider) (e : Entry) → Inv t → find i t ≡ some e → e.id ≡ i
  pub by_info-find : (t : Table) → Inv t → All (λ (e : Entry). find e.id t ≡ some e) (by_info t)
  pub by_time-find : (t : Table) → Inv t → All (λ (e : Entry). find e.id t ≡ some e) (by_time t)
  pub by_info-all :
      (t : Table) (i : Provider) (e : Entry)
      → Inv t
      → find i t ≡ some e
      → Any (λ (y : Entry). y ≡ e) (by_info t)
  pub by_time-all :
      (t : Table) (i : Provider) (e : Entry)
      → Inv t
      → find i t ≡ some e
      → Any (λ (y : Entry). y ≡ e) (by_time t)
  -- To erase the first entry by time leaves the others in their order.
  pub by_time-erase :
      (t : Table) (e : Entry) (es : List Entry)
      → Inv t
      → by_time t ≡ e ∷ es
      → by_time (erase e.id t) ≡ es
  pub find-insert :
      (e : Entry) (t : Table)
      → Inv t
      → find e.id t ≡ none
      → Inv (insert e t)
        × ((i : Provider) → find i (insert e t) ≡ ite (dec i e.id) (some e) (find i t))
  pub find-replace :
      (e x : Entry) (t : Table)
      → Inv t
      → find e.id t ≡ some x
      → Inv (replace e t)
        × ((i : Provider) → find i (replace e t) ≡ ite (dec i e.id) (some e) (find i t))
  pub find-erase :
      (j : Provider) (t : Table)
      → Inv t
      → Inv (erase j t) × ((i : Provider) → find i (erase j t) ≡ ite (dec i j) none (find i t))
