-- ===== src/Provider/Pages.antt =====
-- The RPCs of provider/page_manager.hpp over a store that is a map of pages.
use mathlib.Core.List.{append-nil, append_assoc}
use Prim.Native.String.{String}
use blobseer.Provider.{
  PageManager, Event, exec_hooks, write_pages, write_page, read_one, pushed, counted, read_pages,
  read_page, provider_write,
}
use blobseer.Provider.Stores.{Persistency, IsMap}
use blobseer.Rpc.{Buffer, returns}
use blobseer.Rpc.Buffers.{buffer_discrete}
use blobseer.Rpc.Status
use blobseer.Prelude.{
  ℕ, suc, ◌+◌, ◌%◌, ◌≤◌, ◌<◌, ◌≡◌, refl, sym, ap, subst, ◌∙◌, inl, inr, ite, Bool, true, false,
  Option, some, List, [], ◌∷◌, ◌++◌, map, length, Option-cases, Bool-cases, ltb, ◌==◌,
  if◌then◌else◌, arith,
}

-- The pairs of keys and pages of a list, bound in order.
unfoldable pub bind_all : List Buffer → (Buffer → Option Buffer) → Buffer → Option Buffer
bind_all (k ∷ v ∷ rest) f = bind_all rest (λ j. ite (buffer_discrete j k) (some v) (f j))
bind_all params f = f

unfoldable pub pairs_no : List Buffer → ℕ
pairs_no (k ∷ v ∷ rest) = suc (pairs_no rest)
pairs_no params = 0

-- How many of the keys have a page.
unfoldable pub present_no : List Buffer → (Buffer → Option Buffer) → ℕ
present_no [] f = 0
present_no (k ∷ rest) f = counted (f k) + present_no rest f

bind_all_ext :
    (params : List Buffer) (f g : Buffer → Option Buffer)
    → ((j : Buffer) → f j ≡ g j)
    → (j : Buffer) → bind_all params f j ≡ bind_all params g j
unfolding bind_all
bind_all_ext [] f g h j = h j
bind_all_ext (k ∷ []) f g h j = h j
bind_all_ext (k ∷ v ∷ rest) f g h j =
    bind_all_ext rest _ _ (λ i. ap (λ o. ite (buffer_discrete i k) (some v) o) (h i)) j

module _ (p : Persistency) (x : IsMap p) {L : Type 0} where
  -- What the listeners are told of the pages of a list, one page after the other, with the free space
  -- that the store has once the page is in it.
  unfoldable pub all_told : List L → List Buffer → String → p.State → List (L × Event)
  all_told hooks (k ∷ w ∷ rest) sender s =
      let s' = (p.write k w s).1 in
      map
        (λ hook. (
          hook,
          record {
            name = provider_write;
            free = p.get_free s';
            page_id = k;
            page_size = length w;
            sender = sender;
          },
        ))
        hooks
      ++ all_told hooks rest sender s'
  all_told hooks params sender s = []

  -- What the loop of `write_page` has done: the pages of a prefix of the parameters are bound, each
  -- told to every listener; and it is the whole list, or a page was refused.
  pub record Written (m : PageManager p L) (params : List Buffer) (sender : String)
      (r : Bool × PageManager p L) : Type 0 where
    pub done : List Buffer
    pub left : List Buffer
    pub split : params ≡ done ++ left
    pub pages :
        (j : Buffer) → x.contents r.1.page_cache j ≡ bind_all done (x.contents m.page_cache) j
    pub hooks : r.1.update_hooks ≡ m.update_hooks
    pub told : r.1.calls ≡ m.calls ++ all_told m.update_hooks done sender m.page_cache
    pub all : r.0 ≡ true → length left < 2
    pub refused : r.0 ≡ false → 2 ≤ length left

  -- The manager after a page is written and told.
  abbrev told_page : Buffer → Buffer → String → PageManager p L → PageManager p L
  told_page k w sender m =
      exec_hooks p provider_write k (length w) sender
        (record m { page_cache = (p.write k w m.page_cache).1 })

  one_more :
      (k w : Buffer) (rest : List Buffer) (sender : String) (m : PageManager p L)
      (r : Bool × PageManager p L)
      → ((j : Buffer)
          → x.contents (p.write k w m.page_cache).1 j
            ≡ ite (buffer_discrete j k) (some w) (x.contents m.page_cache j))
      → Written (told_page k w sender m) rest sender r
      → Written m (k ∷ w ∷ rest) sender r
  unfolding exec_hooks pairs_no bind_all all_told
  one_more k w rest sender m r bound next = record {
    done = k ∷ w ∷ next.done;
    left = next.left;
    split = ap (λ t. k ∷ w ∷ t) next.split;
    pages = λ j. next.pages j ∙ bind_all_ext next.done _ _ bound j;
    hooks = next.hooks;
    told = next.told ∙ append_assoc m.calls _ _;
    all = next.all;
    refused = next.refused;
  }

  write_pages-Written :
      (params : List Buffer) (sender : String) (m : PageManager p L)
      → x.Inv (pairs_no params) m.page_cache
      → Written m params sender (write_pages p params sender m)
  unfolding write_pages pairs_no bind_all exec_hooks all_told
  write_pages-Written [] sender m v = record {
    done = [];
    left = [];
    split = refl;
    pages = λ j. refl;
    hooks = refl;
    told = sym (append-nil m.calls);
    all = λ h. omega arith;
    refused = λ h. absurd (cc);
  }
  write_pages-Written (k ∷ []) sender m v = record {
    done = [];
    left = k ∷ [];
    split = refl;
    pages = λ j. refl;
    hooks = refl;
    told = sym (append-nil m.calls);
    all = λ h. omega arith;
    refused = λ h. absurd (cc);
  }
  write_pages-Written (k ∷ w ∷ rest) sender m v = elim (Bool-cases (p.write k w m.page_cache).0) [
    | inl stored ↦
        let (v', bound) = x.write-stored (pairs_no rest) k w m.page_cache v stored in
        let next = write_pages-Written rest sender (told_page k w sender m) v' in
        rw stored (one_more k w rest sender m _ bound next)
    | inr full ↦
        let (v', same) = x.write-refused (pairs_no rest) k w m.page_cache v full in
        rw full (record {
          done = [];
          left = k ∷ w ∷ rest;
          split = refl;
          pages = same;
          hooks = refl;
          told = sym (append-nil m.calls);
          all = λ h. absurd (cc);
          refused = λ h. omega arith;
        })
  ]

  -- A call of `write_page` with an even number of parameters, at least two, returns. The pages of a
  -- prefix of the parameters are bound in their order, every other key keeps its page, and every
  -- listener is told of each page in this order: its key, its size, the sender and the free space
  -- left with it. The status is `ok` if that is the whole list, and `eres` if the
  -- store refused a page, from which on nothing is written.
  pub write_page_lem :
      (m : PageManager p L) (params : List Buffer) (sender : String) (result : List Buffer)
      → x.Inv (pairs_no params) m.page_cache
      → length params % 2 ≡ 0
      → 2 ≤ length params
      → (r : Bool × PageManager p L) × (write_page p m params sender result
          ≡ returns (if r.0 then Status.ok else Status.eres) result r.1)
        × Written m params sender r
  unfolding write_page
  write_page_lem m params sender result v even two =
      let parity : (length params % 2 == 0) ≡ true = ground arith in
      let enough : ltb (length params) 2 ≡ false = ground arith in
      (
        write_pages p params sender m,
        rw (parity, enough) refl,
        write_pages-Written params sender m v,
      )

  read_one-page_cache :
      (k : Buffer) (sender : String) (m : PageManager p L)
      → (read_one p k sender m).1.page_cache ≡ (p.read k m.page_cache).1
  unfolding exec_hooks
  read_one-page_cache k sender m = elim (Option-cases (p.read k m.page_cache).0) [
    | inl e ↦ rw e refl
    | inr (w, e) ↦ rw e refl
  ]

  read_pages_lem :
      (n : ℕ) (params : List Buffer) (sender : String) (m : PageManager p L)
      (f : Buffer → Option Buffer)
      → x.Inv n m.page_cache
      → ((j : Buffer) → x.contents m.page_cache j ≡ f j)
      → ((read_pages p params sender m).0 ≡ present_no params f)
        × ((read_pages p params sender m).1 ≡ map (λ k. pushed (f k)) params)
        × ((j : Buffer) → x.contents (read_pages p params sender m).2.page_cache j ≡ f j)
        × x.Inv n (read_pages p params sender m).2.page_cache
  unfolding read_pages present_no
  read_pages_lem n [] sender m f v same = (refl, refl, same, v)
  read_pages_lem n (k ∷ rest) sender m f v same =
      let (v', got, kept) = x.read-contents n k m.page_cache v in
      let m' = (read_one p k sender m).1 in
      let cache = read_one-page_cache k sender m in
      let (count, buffers, pages, inv) =
        read_pages_lem n rest sender m' f (subst (x.Inv n) (sym cache) v')
          (λ j. ap (λ s. x.contents s j) cache ∙ kept j ∙ same j) in
      let found : (p.read k m.page_cache).0 ≡ f k = got ∙ same k in
      (
        omega (arith, ap counted found, count),
        ap (λ o. pushed o ∷ (read_pages p rest sender m').1) found
            ∙ ap (λ t. pushed (f k) ∷ t) buffers,
        pages,
        inv,
      )

  -- A call of `read_page` with at least one key returns a buffer for each key, in order: its page,
  -- or the empty buffer if there is none. The status is `ok` if every key has a page, and `eobj` if
  -- not; no page changes.
  pub read_page_lem :
      (n : ℕ) (m : PageManager p L) (k : Buffer) (keys : List Buffer) (sender : String)
      (result : List Buffer)
      → x.Inv n m.page_cache
      → let f = x.contents m.page_cache in
        (m' : PageManager p L) × (read_page p m (k ∷ keys) sender result
          ≡ returns
              (if present_no (k ∷ keys) f == length (k ∷ keys) then Status.ok else Status.eobj)
              (result ++ map (λ i. pushed (f i)) (k ∷ keys))
              m')
        × x.Inv n m'.page_cache
        × ((j : Buffer) → x.contents m'.page_cache j ≡ f j)
  unfolding read_page
  read_page_lem n m k keys sender result v =
      let (count, buffers, pages, inv) =
        read_pages_lem n (k ∷ keys) sender m (x.contents m.page_cache) v (λ j. refl) in
      (
        (read_pages p (k ∷ keys) sender m).2,
        ap
            (λ (t : ℕ × List Buffer).
              returns (if t.0 == length (k ∷ keys) then Status.ok else Status.eobj) (result ++ t.1)
                (read_pages p (k ∷ keys) sender m).2)
            (λ i. (count i, buffers i)),
        inv,
        pages,
      )
