-- ===== src/Provider/Partial.antt =====
-- `read_partial_page` of provider/page_manager.hpp over a store that is a map of pages.
use Prim.Native.String.{String}
use blobseer.Provider.{PageManager, exec_hooks, read_partial_page, provider_read}
use blobseer.Provider.Stores.{Persistency, IsMap}
use blobseer.Rpc.{Buffer, Codec, returns, with_value, get_value-encode}
use blobseer.Rpc.Status
use blobseer.Prelude.{
  ℕ, ◌+◌, ◌%◌, ◌-◌, ◌≤◌, ◌<◌, ◌≡◌, refl, ◌∙◌, inl, inr, true, false, some, List, [], ◌∷◌, ◌++◌,
  length, take, drop, length-take-drop, Bool-cases, u32, u64, ltb, leb, if◌then◌else◌, arith,
}

module _ (p : Persistency) (x : IsMap p) {L : Type 0} (outside : Buffer → ℕ → ℕ → Buffer)
    (word64 : Codec ℕ) (n : ℕ) (m : PageManager p L) (k page : Buffer) (offset size : ℕ)
    (sender : String) (result : List Buffer) where
  -- A partial read of a key that has a page returns `size` bytes of it from `offset` on, if they lie
  -- in the page, and `eobj` if they end beyond it; this for offsets and sizes whose sum is below
  -- 2^64, on pages of fewer than 2^32 bytes.
  pub read_partial_page_lem :
      x.Inv n m.page_cache
      → x.contents m.page_cache k ≡ some page
      → offset + size < u64
      → length page < u32
      → (m' : PageManager p L) × (read_partial_page p outside word64 m
            (k ∷ word64.encode offset ∷ word64.encode size ∷ [])
            sender
            result
          ≡ (if leb (offset + size) (length page)
              then returns Status.ok (result ++ take size (drop offset page) ∷ []) m'
              else returns Status.eobj result m'))
        × (offset + size ≤ length page → length (take size (drop offset page)) ≡ size)
  unfolding read_partial_page with_value
  read_partial_page_lem v there sum small =
      let (v', got, kept) = x.read-contents n k m.page_cache v in
      let found : (p.read k m.page_cache).0 ≡ some page = got ∙ there in
      let m' : PageManager p L = record m { page_cache = (p.read k m.page_cache).1 } in
      let whole : (offset + size) % u64 ≡ offset + size = ground arith in
      elim (Bool-cases (leb (offset + size) (length page))) [
        | inl inside ↦
            let fits : ltb (length page) (offset + size) ≡ false = ground arith in
            let word : size % u32 ≡ size = ground arith in
            (
              exec_hooks p provider_read k size sender m',
              rw
                  (
                    get_value-encode word64 offset,
                    get_value-encode word64 size,
                    found,
                    whole,
                    fits,
                    word,
                    inside,
                  )
                  refl,
              length-take-drop offset size page,
            )
        | inr beyond ↦
            let over : ltb (length page) (offset + size) ≡ true = ground arith in
            (
              m',
              rw
                  (
                    get_value-encode word64 offset,
                    get_value-encode word64 size,
                    found,
                    whole,
                    over,
                    beyond,
                  )
                  refl,
              length-take-drop offset size page,
            )
      ]

  -- Where the sum of offset and size passes 2^64, and what is left of it lies in the page, a partial
  -- read from beyond the end of the page is answered with `ok` and with bytes from outside the page.
  pub read_partial_page-wraps :
      x.Inv n m.page_cache
      → x.contents m.page_cache k ≡ some page
      → length page < offset
      → u64 ≤ offset + size
      → offset + size - u64 ≤ length page
      → length page < u64
      → (m' : PageManager p L) × (read_partial_page p outside word64 m
            (k ∷ word64.encode offset ∷ word64.encode size ∷ [])
            sender
            result
          ≡ returns Status.ok (result ++ outside page offset (size % u32) ∷ []) m')
  unfolding read_partial_page with_value
  read_partial_page-wraps v there beyond wraps low small =
      let (v', got, kept) = x.read-contents n k m.page_cache v in
      let found : (p.read k m.page_cache).0 ≡ some page = got ∙ there in
      let m' : PageManager p L = record m { page_cache = (p.read k m.page_cache).1 } in
      let rest : (offset + size) % u64 ≡ offset + size - u64 = ground arith in
      let passes : ltb (length page) (offset + size - u64) ≡ false = ground arith in
      let away : leb (offset + size % u32) (length page) ≡ false = ground arith in
      (
        exec_hooks p provider_read k size sender m',
        rw (get_value-encode word64 offset, get_value-encode word64 size, found, rest, passes, away)
            refl,
      )
