-- ===== src/Provider.antt =====
-- provider/page_manager.hpp: the RPCs of a provider over a store of pages. A call of a listener is
-- recorded with its arguments, in the order of the calls.
pub mod Stores
pub mod Memory
pub mod Pages
pub mod Partial
pub mod Listener
use Prim.Native.String.{String}
use Stores.{Persistency}
use blobseer.Rpc.{Buffer, Codec, Outcome, returns, get_value, with_value}
use blobseer.Rpc.Status
use blobseer.Prelude.{
  ℕ, suc, ◌+◌, ◌%◌, Bool, true, false, ◌||◌, Option, none, some, List, [], ◌∷◌, ◌++◌, map, length,
  take, drop, u32, u64, ltb, leb, ◌==◌, not, if◌then◌else◌,
}

-- The names of the events that listeners are told.
pub data Hook : Type 0 where
  provider_read provider_write : Hook

-- The hook's name, and `monitored_params_t`.
pub record Event : Type 0 where
  pub name : Hook
  pub free : ℕ
  pub page_id : Buffer
  pub page_size : ℕ
  pub sender : String

abbrev pub pushed : Option Buffer → Buffer
pushed none = []
pushed (some page) = page

abbrev pub counted : Option Buffer → ℕ
counted none = 0
counted (some page) = 1

-- The bytes from `data.get() + offset`. Those beyond the page are whatever is in memory: the
-- parameter `outside` of the page, the offset and the size.
abbrev pub bytes_at : (Buffer → ℕ → ℕ → Buffer) → Buffer → ℕ → ℕ → Buffer
bytes_at outside page offset size =
    if leb (offset + size) (length page)
    then take size (drop offset page)
    else outside page offset size

module _ (p : Persistency) where
  -- `L` names the listeners.
  pub record PageManager (L : Type 0) : Type 0 where
    pub page_cache : p.State
    pub update_hooks : List L
    pub calls : List (L × Event)

  module _ {L : Type 0} where
    unfoldable pub add_listener : L → PageManager L → PageManager L
    add_listener hook m = record m { update_hooks = m.update_hooks ++ hook ∷ [] }

    unfoldable pub exec_hooks : Hook → Buffer → ℕ → String → PageManager L → PageManager L
    exec_hooks name page_id ps sender m =
        let event : Event = record {
          name = name;
          free = p.get_free m.page_cache;
          page_id = page_id;
          page_size = ps;
          sender = sender;
        } in
        record m { calls = m.calls ++ map (λ hook. (hook, event)) m.update_hooks }

    -- One round of the loop of `write_page`.
    abbrev pub write_one : Buffer → Buffer → String → PageManager L → Bool × PageManager L
    write_one k v sender m =
        let (stored, s) = p.write k v m.page_cache in
        let m' = record m { page_cache = s } in
        if stored then (true, exec_hooks provider_write k (length v) sender m') else (false, m')

    -- The loop of `write_page`: whether all pages were written.
    unfoldable pub write_pages : List Buffer → String → PageManager L → Bool × PageManager L
    write_pages (k ∷ v ∷ rest) sender m =
        let (stored, m') = write_one k v sender m in
        let next = write_pages rest sender m' in if stored then next else (false, m')
    write_pages params sender m = (true, m)

    unfoldable pub write_page :
        PageManager L → List Buffer → String → List Buffer → Outcome (PageManager L)
    write_page m params sender result =
        if not (length params % 2 == 0) || ltb (length params) 2
        then returns Status.ok result m
        else let (stored, m') = write_pages params sender m in
          returns (if stored then Status.ok else Status.eres) result m'

    -- One round of the loop of `read_page`: the page, if it is there, and the buffer pushed.
    abbrev pub read_one : Buffer → String → PageManager L → Option Buffer × PageManager L
    read_one k sender m =
        let (found, s) = p.read k m.page_cache in
        let m' = record m { page_cache = s } in
        (
          found,
          elim found [ none ↦ m' | some page ↦ exec_hooks provider_read k (length page) sender m' ],
        )

    -- The loop of `read_page`: the pages found, the buffers pushed, and the manager.
    unfoldable pub read_pages :
        List Buffer → String → PageManager L → ℕ × List Buffer × PageManager L
    read_pages [] sender m = (0, [], m)
    read_pages (k ∷ rest) sender m =
        let (found, m') = read_one k sender m in
        let (ok, buffers, m'') = read_pages rest sender m' in
        (counted found + ok, pushed found ∷ buffers, m'')

    unfoldable pub read_page :
        PageManager L → List Buffer → String → List Buffer → Outcome (PageManager L)
    read_page m [] sender result = returns Status.earg result m
    read_page m (k ∷ rest) sender result =
        let (ok, buffers, m') = read_pages (k ∷ rest) sender m in
        returns (if ok == length (k ∷ rest) then Status.ok else Status.eobj) (result ++ buffers) m'

    unfoldable pub read_partial_page :
        (Buffer → ℕ → ℕ → Buffer)
        → Codec ℕ
        → PageManager L
        → List Buffer
        → String
        → List Buffer
        → Outcome (PageManager L)
    read_partial_page outside word64 m (k ∷ a ∷ b ∷ []) sender result =
        with_value (get_value word64 a) result m λ offset.
          with_value (get_value word64 b) result m λ size.
            let (found, s) = p.read k m.page_cache in
            let m' = record m { page_cache = s } in
            elim found [
              | none ↦ returns Status.eobj result m'
              | some page ↦
                  if ltb (length page) ((offset + size) % u64)
                  then returns Status.eobj result m'
                  else returns Status.ok (result ++ bytes_at outside page offset (size % u32) ∷ [])
                      (exec_hooks provider_read k size sender m')
            ]
    read_partial_page outside word64 m params sender result = returns Status.earg result m
