-- ===== src/Client/Contents.antt =====
-- `read` of client/object_handler.cpp as a whole.
use blobseer.Client.{Answer, ObjectHandler, returned}
use blobseer.Client.Copies.{Serves, filled, filled-Reaches, filled_outside, read_pages-filled}
use blobseer.Client.Cover.{plan-Tiles, Fits-in_range}
use blobseer.Client.Fetches.{PageRequest}
use blobseer.Client.Plan.{PageRead, nbr_vadv, plan}
use blobseer.Client.Reads.{Memory, read_found, query_root, is_refused, locate, read}
use blobseer.Client.Tiles.{Fits, Reaches}
use blobseer.RangeQuery.Replicas.{RandomSelect}
use blobseer.Rpc.{Buffer, Codec}
use blobseer.Structures.{Provider, Query, Root, TreeNode}
use blobseer.VManager.{Codecs}
use blobseer.VManager.Rpcs.{Request}
use blobseer.Prelude.{
  ℕ, ◌+◌, ◌%◌, ◌^◌, ◌≤◌, ◌<◌, ◌≡◌, refl, true, false, some, List, [], ◌∷◌, length, All, All-map,
  Any, u32, u64, arith, ◌==◌, ltb,
}

not_refused :
    (root : Root) (version offset size : ℕ)
    → version ≤ root.node.version
    → 0 < root.page_size
    → offset + size ≤ root.node.size
    → offset + size ≤ 2 ^ 62
    → is_refused root version offset size ≡ false
unfolding is_refused
not_refused root version offset size published pos within small =
    let whole : (offset + size) % u64 ≡ offset + size = omega (arith, small) in
    let old : ltb root.node.version version ≡ false = ground arith in
    let page : (root.page_size == 0) ≡ false = ground arith in
    let inside : ltb root.node.size (offset + size) ≡ false = ground arith in
    rw (whole, old, page, inside) refl

-- Where a request reaches a byte, the bound on its page is not 0.
none_empty :
    (n k : ℕ) (ps : List PageRead)
    → All (λ p. p.index < n) ps
    → Any (Reaches k) ps
    → (n == 0) ≡ false
none_empty n k [] h any = absurd any
none_empty n k (p ∷ ps) h any = ground (arith, h.0)

-- A read of at least one byte of a published version, where every page of the range is found and
-- each of its replicas has the bytes of the page, answers true. The user's buffer then holds the
-- bytes of the blob from `offset` on, and nothing beyond its `size` places has changed. This
-- whatever replicas the random choices give, for ranges that end by 2^62 and fewer than 2^32 pages.
pub client_read_lem :
    (c : Codecs) (vmgr : Request → List Buffer → Answer) (tree : Codec TreeNode)
    (lc : Codec (List Provider)) (lookup : Query → Buffer) (depth : ℕ) (random : ℕ → ℕ → ℕ)
    (net : Provider → PageRequest → List Buffer → Answer) (offset size : ℕ) (mem : Memory)
    (version : ℕ) (h h' : ObjectHandler) (root : Root) (vadv : List RandomSelect) (blob : ℕ → ℕ)
    → query_root c vmgr version h ≡ ((true, root), h')
    → version ≤ root.node.version
    → 0 < root.page_size
    → 0 < size
    → offset + size ≤ root.node.size
    → offset + size ≤ 2 ^ 62
    → nbr_vadv root.page_size offset size < u32
    → locate tree lc lookup depth root offset size ≡ some (true, vadv)
    → length vadv ≡ nbr_vadv root.page_size offset size
    → ((j : ℕ) → j < length vadv → Serves c net blob root.page_size offset vadv j)
    → (mem' : Memory) × (read c vmgr tree lc lookup depth random net offset size mem version h
        ≡ (returned (some mem'), h'))
      × ((k : ℕ) → k < size → mem' k ≡ blob (offset + k))
      × ((k : ℕ) → size ≤ k → mem' k ≡ mem k)
unfolding read read_found
client_read_lem c vmgr tree lc lookup depth random net offset size mem version h h' root vadv blob
      found published pos byte within small few located len serves =
    let ps = plan root.page_size offset size (nbr_vadv root.page_size offset size) in
    let (fits, reach) = plan-Tiles root.page_size offset size pos byte small few in
    let pages : length vadv % u32 ≡ nbr_vadv root.page_size offset size = omega (arith, len, few) in
    let inside : All (λ p. p.index < length vadv) ps =
      All-map (Fits root.page_size offset size) (λ p. p.index < length vadv) ps
        (λ p fit.
          omega (arith, len, Fits-in_range root.page_size offset size pos byte small few p fit))
        fits in
    let run =
      read_pages-filled c net blob root.page_size offset vadv random size ps mem fits inside
        serves in
    let some_page : (nbr_vadv root.page_size offset size == 0) ≡ false =
      (rw (← len) (none_empty (length vadv) 0 ps inside (reach 0 byte))) in
    let fine : is_refused root version offset size ≡ false =
      not_refused root version offset size published pos within small in
    (
      filled blob offset size ps mem,
      rw (found, fine, located, pages, some_page, run) refl,
      (λ k lt. filled-Reaches blob offset size ps mem k (reach k lt)),
      λ k le. filled_outside blob offset size root.page_size ps mem k le fits,
    )
