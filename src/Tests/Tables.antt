-- ===== src/Tests/Tables.antt =====
-- A container that meets the laws of `Index`: an association list that both other indices walk in
-- its own order.
use blobseer.Cache.Keys.{Unique, find-erase, find-insert, erase_absent, Unique-erase, Unique-insert}
use blobseer.PManager.Table.{Entry, Index}
use blobseer.Prelude.Map.{find, update, erase, insert, find-update_self, find-update_ne}
use blobseer.Structures.{Provider}
use blobseer.Prelude.{◌≡◌, refl, ite, some, List, [], ◌∷◌, map, All, All-map, Any, arith}

module _ (dec : Discrete Provider) where
  abbrev pub Rows : Type 0
  Rows = List (Provider × Entry)

  abbrev pub entries : Rows → List Entry
  entries t = map (λ r. r.1) t

  -- Every row stands under the provider of its entry.
  abbrev pub Keyed : Rows → Type 0
  Keyed [] = Unit
  Keyed ((k, e) ∷ t) = (e.id ≡ k) × Keyed t

  abbrev pub Inv : Rows → Type 0
  Inv t = Unique dec t × Keyed t

  pub found_id : (t : Rows) (i : Provider) (e : Entry) → Keyed t → find dec i t ≡ some e → e.id ≡ i
  unfolding find
  found_id [] i e h f = absurd (cc)
  found_id ((k, x) ∷ t) i e h f = ground (arith, found_id t i e h.1)

  pub entries-find : (t : Rows) → Inv t → All (λ (e : Entry). find dec e.id t ≡ some e) (entries t)
  unfolding find
  entries-find [] v = tt
  entries-find ((k, x) ∷ t) ((fresh, u), (same, h)) = (
    ground arith,
    All-map (λ (e : Entry). find dec e.id t ≡ some e)
        (λ (e : Entry). find dec e.id ((k, x) ∷ t) ≡ some e) (entries t) (λ e f. ground arith)
        (entries-find t (u, h)),
  )

  pub entries-all :
      (t : Rows) (i : Provider) (e : Entry)
      → find dec i t ≡ some e
      → Any (λ (y : Entry). y ≡ e) (entries t)
  unfolding find
  entries-all [] i e f = absurd (cc)
  entries-all ((k, x) ∷ t) i e f = ground (arith, entries-all t i e)

  pub entries-erase :
      (t : Rows) (e : Entry) (es : List Entry)
      → Inv t
      → entries t ≡ e ∷ es
      → entries (erase dec e.id t) ≡ es
  unfolding erase
  entries-erase [] e es v h = absurd (cc)
  entries-erase ((k, x) ∷ t) e es ((fresh, u), (same, w)) h =
      ground (arith, erase_absent dec k t fresh)

  pub Keyed-insert : (e : Entry) (t : Rows) → Keyed t → Keyed (insert dec e.id e t)
  unfolding insert
  Keyed-insert e [] h = (refl, tt)
  Keyed-insert e ((k, x) ∷ t) h = ground (arith, Keyed-insert e t h.1)

  pub Keyed-erase : (i : Provider) (t : Rows) → Keyed t → Keyed (erase dec i t)
  unfolding erase
  Keyed-erase i [] h = tt
  Keyed-erase i ((k, x) ∷ t) h = ground (arith, Keyed-erase i t h.1)

  pub Keyed-update : (e : Entry) (t : Rows) → Keyed t → Keyed (update dec e.id e t)
  unfolding update
  Keyed-update e [] h = tt
  Keyed-update e ((k, x) ∷ t) h = ground (arith, Keyed-update e t h.1)

  pub Unique-update :
      (e : Entry) (i : Provider) (t : Rows) → Unique dec t → Unique dec (update dec i e t)
  unfolding update find
  Unique-update e i [] u = tt
  Unique-update e i ((k, x) ∷ t) u =
      ground (arith, Unique-update e i t u.1, find-update_ne dec i k e t)

  pub found_updated :
      (e x : Entry) (t : Rows) (i : Provider)
      → find dec e.id t ≡ some x
      → find dec i (update dec e.id e t) ≡ ite (dec i e.id) (some e) (find dec i t)
  found_updated e x t i f =
      ground (arith, find-update_self dec e.id e x t f, find-update_ne dec e.id i e t)

  abbrev pub rows : Index dec
  rows = record {
    Table = Rows;
    Inv = Inv;
    find = find dec;
    by_info = entries;
    by_time = entries;
    insert = λ e t. insert dec e.id e t;
    replace = λ e t. update dec e.id e t;
    erase = erase dec;
    find-id = λ t i e v f. found_id t i e v.1 f;
    by_info-find = entries-find;
    by_time-find = entries-find;
    by_info-all = λ t i e v f. entries-all t i e f;
    by_time-all = λ t i e v f. entries-all t i e f;
    by_time-erase = entries-erase;
    find-insert = λ e t v f. (
      (Unique-insert dec e.id e t f v.0, Keyed-insert e t v.1),
      λ i. find-insert dec i e.id e t f,
    );
    find-replace = λ e x t v f.
        ((Unique-update e e.id t v.0, Keyed-update e t v.1), λ i. found_updated e x t i f);
    find-erase =
        λ j t v. ((Unique-erase dec j t v.0, Keyed-erase j t v.1), λ i. find-erase dec i j t);
  }
