-- ===== src/Client.antt =====
-- client/object_handler.cpp and .hpp: the client of one blob. A remote manager is a parameter: what
-- it answers to an RPC and its parameters, a status and the result vector. The reads, the page
-- locations and the writes are in the children.
pub mod Reads
pub mod Plan
pub mod Tiles
pub mod Cover
pub mod Fetches
pub mod Fetched
pub mod Copies
pub mod Contents
pub mod Locations
pub mod Listed
pub mod Writes
pub mod Written
pub mod Steps
use blobseer.Cache
use blobseer.Cache.Lru.{lru}
use blobseer.Rpc.{Buffer, Codec, Got, empty_buffer, bad, good, get_value}
use blobseer.Rpc.Status
use blobseer.Structures.{Query, Root, null_root, is_empty_root}
use blobseer.VManager.{Codecs}
use blobseer.VManager.Rpcs.{Request, get_root_rpc, create_rpc, get_objcount_rpc, clone_rpc}
use blobseer.Prelude.{
  ℕ, Bool, true, false, Option, none, some, List, [], ◌∷◌, ◌&&◌, not, ◌==◌, if◌then◌else◌,
  ℕ_discrete,
}

abbrev pub VersionCache : Type 0
VersionCache = Cache.Cache ℕ Root (lru ℕ_discrete)

-- `object_handler`: the fields that its operations use.
pub record ObjectHandler : Type 0 where
  pub id : ℕ
  pub latest_root : Root
  pub version_cache : VersionCache
  pub retry_count : ℕ

-- The status and the result vector of an RPC.
abbrev pub Answer : Type 0
Answer = ℕ × List Buffer

-- What a method does: it throws, it reads or writes beyond a vector, or it returns.
pub data Ended (A : Type 0) : Type 0 where
  raised : Ended A
  undefined : Ended A
  returned : A → Ended A

-- `getValue` on an empty buffer throws out of the callback; `run` of the RPC client drops the
-- exception, so the result stays.
abbrev pub take_value : {A : Type 0} → Bool → A → Got A → Bool × A
take_value res output (good v) = (res, v)
take_value res output bad = (false, output)
take_value res output empty_buffer = (res, output)

unfoldable pub rpc_get_serialized : {A : Type 0} → Codec A → Bool → A → Answer → Bool × A
rpc_get_serialized c res output (error, b ∷ []) =
    if error == Status.ok then take_value res output (get_value c b) else (false, output)
rpc_get_serialized c res output (error, _) = (false, output)

unfoldable pub rpc_result_callback : Bool → Answer → Bool
rpc_result_callback res (error, result) = if error == Status.ok then res else false

module _ (c : Codecs) (vmgr : Request → List Buffer → Answer) where
  -- The request of `get_root`, and the root that the reference argument holds afterwards.
  abbrev pub ask_root : ℕ → ℕ → Root → Bool × Root
  ask_root id version root =
      rpc_get_serialized c.root true root
        (vmgr get_root_rpc (c.word32.encode id ∷ c.word32.encode version ∷ []))

  -- The root of a version as the manager gives it, and its place in the cache.
  unfoldable pub remember : Bool × Root → VersionCache → VersionCache
  remember (true, root) cache =
      (Cache.write ℕ_discrete (lru ℕ_discrete) null_root root.node.version root true cache).1
  remember (false, root) cache = cache

  unfoldable pub get_root : ℕ → Root → ObjectHandler → (Bool × Root) × ObjectHandler
  get_root version root h =
      let asked = ask_root h.id version root in
      let (hit, cache) = Cache.read ℕ_discrete (lru ℕ_discrete) version h.version_cache in
      if version == 0 then (asked, h) else elim hit [
        | some r ↦ ((true, r), record h { version_cache = cache })
        | none ↦ (asked, record h { version_cache = remember asked cache })
      ]

  unfoldable pub get_latest : ℕ → ObjectHandler → Bool × ObjectHandler
  get_latest id h =
      let named = record h { id = if id == 0 then h.id else id } in
      let ((result, root), h') = get_root 0 named.latest_root named in
      (result, record h' { latest_root = root })

  unfoldable pub get_size : ℕ → ObjectHandler → ℕ × ObjectHandler
  get_size version h =
      let ((result, root), h') = get_root version null_root h in
      if version == 0
      then (h.latest_root.current_size, h)
      else (if result then root.current_size else 0, h')

  unfoldable pub create : ℕ → ℕ → ObjectHandler → Bool × ObjectHandler
  create page_size replica_count h =
      let (result, root) =
        rpc_get_serialized c.root true h.latest_root
          (vmgr create_rpc (c.word64.encode page_size ∷ c.word32.encode replica_count ∷ [])) in
      (result, record h { latest_root = root; id = root.node.id })

  -- `none` is the answer -1.
  unfoldable pub get_objcount : ObjectHandler → Option ℕ
  get_objcount h =
      let (result, count) = rpc_get_serialized c.word32 true 0 (vmgr get_objcount_rpc []) in
      if result then some count else none

  unfoldable pub clone : ℕ → ℕ → ObjectHandler → Bool × ObjectHandler
  clone id version h =
      let source = if id == 0 then h.id else id in
      let (result, root) =
        rpc_get_serialized c.root true null_root
          (vmgr clone_rpc (c.word32.encode source ∷ c.word32.encode version ∷ [])) in
      if result && not (is_empty_root root)
      then (
        true,
        record h {
          latest_root = record root { node = record (root.node) { id = h.id } };
          id = root.node.id;
        },
      )
      else (false, h)

abbrev pub get_version : ObjectHandler → ℕ
get_version h = h.latest_root.node.version

abbrev pub get_page_size : ObjectHandler → ℕ
get_page_size h = h.latest_root.page_size

abbrev pub get_id : ObjectHandler → ℕ
get_id h = h.id
