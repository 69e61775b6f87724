-- ===== src/VManager.antt =====
-- vmanager/vmanagement.cpp and the obj_info of common/structures.hpp: the version manager. An RPC
-- is a function of the manager's state, the parameters and the result vector. `std::map` keyed by
-- version is a list in the order of versions, and the unordered map of objects an association list.
pub mod Intervals
pub mod Order
pub mod Grow
pub mod Writes
pub mod Appends
pub mod Invariant
pub mod Refusals
pub mod Snapshots
pub mod Objects
pub mod Rpcs
pub mod Tickets
use Intervals.{Entry, insert_entry, mark, has_version, drain}
use blobseer.Prelude.Map.{find, update, insert}
use blobseer.Rpc.{
  Buffer, Codec, Outcome, throws, diverges, returns, get_value, with_value, with_found,
}
use blobseer.Rpc.Status
use blobseer.Structures.{Query, Root, make_root, null_root}
use blobseer.Prelude.{
  ℕ, zero, suc, ◌+◌, ◌*◌, ◌%◌, Bool, true, false, ◌||◌, Option, none, some, List, [], ◌∷◌, ◌++◌,
  length, get_or, last_or, u32, u64, ltb, leb, ◌==◌, if◌then◌else◌, ℕ_discrete,
}

pub record ObjInfo : Type 0 where
  pub roots : List Root
  pub intervals : List Entry
  pub current_ticket : ℕ
  pub max_size : ℕ
  pub progress_size : ℕ

-- `obj_info(id, ps, rc)`.
unfoldable pub new_info : ℕ → ℕ → ℕ → ObjInfo
new_info id ps rc = record {
  roots = make_root id 0 ps 0 rc ∷ [];
  intervals = [];
  current_ticket = 1;
  max_size = ps;
  progress_size = 0;
}

-- `obj_info(root)`.
unfoldable pub cloned_info : Root → ObjInfo
cloned_info root = record {
  roots = root ∷ [];
  intervals = [];
  current_ticket = 1;
  max_size = root.node.size;
  progress_size = root.current_size;
}

pub record Manager : Type 0 where
  pub objects : List (ℕ × ObjInfo)
  pub obj_count : ℕ

abbrev pub initial : Manager
initial = record { objects = []; obj_count = 0 }

pub record Reply : Type 0 where
  pub intervals : List Entry
  pub root_size : ℕ
  pub stable_root : Root

-- The serialised types of the six RPCs.
pub record Codecs : Type 0 where
  pub word32 : Codec ℕ
  pub word64 : Codec ℕ
  pub flag : Codec Bool
  pub query : Codec Query
  pub root : Codec Root
  pub reply : Codec Reply

-- `roots.back()`.
abbrev pub latest : ObjInfo → Root
latest o = last_or o.roots null_root

-- The root of a version; 0 and a version not yet published give the latest one.
unfoldable pub root_of : ObjInfo → ℕ → Root
root_of o version =
    if version == 0 || leb (length o.roots) version
    then latest o
    else get_or o.roots version null_root

-- `++obj_count`, read as an unsigned id.
abbrev pub next_id : Manager → ℕ
next_id m = (m.obj_count + 1) % u32

-- `while (need > max_size) max_size <<= 1`, on fuel; `none` where that ran out.
unfoldable pub grow : ℕ → ℕ → ℕ → Option ℕ
grow zero need size = none
grow (suc f) need size =
    let rest = grow f need ((2 * size) % u64) in if ltb size need then rest else some size

-- After 64 shifts a 64-bit word is 0 and stays so: a loop that takes more rounds never ends.
abbrev pub grow_fuel : ℕ
grow_fuel = 65

-- The part of `get_ticket` under the lock, once the tree has grown to `max_size`: the object and
-- the entry that is queued. `query` has its offset adjusted.
unfoldable pub reserve : ObjInfo → Query → ℕ → ObjInfo × Entry
reserve o query max_size =
    let stop = (query.offset + query.size) % u64 in
    let stable = latest o in
    let grows = ltb stable.current_size stop in
    let numbered = record query { version = o.current_ticket } in
    let new_root : Root = record {
      node = record {
        id = query.id;
        version = o.current_ticket;
        offset = stable.node.offset;
        size = max_size;
      };
      replica_count = stable.replica_count;
      current_size = if grows then stop else stable.current_size;
      page_size = stable.page_size;
    } in
    let entry : Entry = record { key = numbered; root = new_root; completed = false } in
    (
      record o {
        intervals = insert_entry entry o.intervals;
        current_ticket = (o.current_ticket + 1) % u32;
        max_size = max_size;
        progress_size = if grows then stop else o.progress_size;
      },
      entry,
    )

-- An append starts where the reserved writes end.
abbrev pub adjust : ObjInfo → Query → Bool → Query
adjust o query append = record query { offset = if append then o.progress_size else query.offset }

abbrev pub after_publish : ObjInfo → List Root × List Entry → ObjInfo
after_publish o (roots, rest) = record o { roots = roots; intervals = rest }

-- `publish` on an object whose queue holds the version: mark it, then move the completed entries
-- at the front to the roots.
unfoldable pub publish_version : ObjInfo → ℕ → ObjInfo
publish_version o version = after_publish o (drain o.roots (mark version o.intervals))

module _ (c : Codecs) where
  unfoldable pub get_root : Manager → List Buffer → List Buffer → Outcome Manager
  get_root m (p ∷ q ∷ []) result = with_value (get_value c.word32 p) result m λ id.
      with_value (get_value c.word32 q) result m λ version.
        with_found (find ℕ_discrete id m.objects)
          (returns Status.ok (result ++ c.root.encode null_root ∷ []) m)
          (λ o. returns Status.ok (result ++ c.root.encode (root_of o version) ∷ []) m)
  get_root m params result = returns Status.earg result m

  -- The clone's first root keeps the node of the original; the answer carries the new id.
  unfoldable pub clone : Manager → List Buffer → List Buffer → Outcome Manager
  clone m (p ∷ q ∷ []) result = with_value (get_value c.word32 p) result m λ id.
      with_value (get_value c.word32 q) result m λ version.
        with_found (find ℕ_discrete id m.objects)
          (returns Status.ok (result ++ c.root.encode null_root ∷ []) m)
          λ o.
            let root = root_of o version in
            let answer = record root { node = record (root.node) { id = next_id m } } in
            returns Status.ok (result ++ c.root.encode answer ∷ []) (record {
              objects = insert ℕ_discrete (next_id m) (cloned_info root) m.objects;
              obj_count = next_id m;
            })
  clone m params result = returns Status.earg result m

  unfoldable pub ticket_locked : Manager → Query → Bool → List Buffer → ObjInfo → Outcome Manager
  ticket_locked m query append result o =
      let q = adjust o query append in
      with_found (grow grow_fuel ((q.offset + q.size) % u64) o.max_size) diverges λ max_size.
        let (o', entry) = reserve o q max_size in
        let reply : Reply = record {
          intervals = o'.intervals;
          root_size = o'.max_size;
          stable_root = latest o';
        } in
        returns Status.ok (result ++ c.reply.encode reply ∷ [])
          (record m { objects = update ℕ_discrete query.id o' m.objects })

  unfoldable pub get_ticket : Manager → List Buffer → List Buffer → Outcome Manager
  get_ticket m (p ∷ q ∷ []) result = with_value (get_value c.query p) result m λ query.
      with_value (get_value c.flag q) result m λ append.
        with_found (find ℕ_discrete query.id m.objects) (returns Status.eobj result m)
          (ticket_locked m query append result)
  get_ticket m params result = returns Status.earg result m

  unfoldable pub publish : Manager → List Buffer → List Buffer → Outcome Manager
  publish m (p ∷ []) result = with_value (get_value c.query p) result m λ interval.
      with_found (find ℕ_discrete interval.id m.objects) (returns Status.eobj result m) λ o.
        if has_version interval.version o.intervals
        then returns Status.ok result (record m {
          objects = update ℕ_discrete interval.id (publish_version o interval.version) m.objects;
        })
        else returns Status.eobj result m
  publish m params result = returns Status.earg result m

  unfoldable pub create : Manager → List Buffer → List Buffer → Outcome Manager
  create m (p ∷ q ∷ []) result = with_value (get_value c.word64 p) result m λ ps.
      with_value (get_value c.word32 q) result m λ rc.
        let o = new_info (next_id m) ps rc in
        returns Status.ok (result ++ c.root.encode (latest o) ∷ [])
          (record { objects = insert ℕ_discrete (next_id m) o m.objects; obj_count = next_id m })
  create m params result = returns Status.earg result m

  unfoldable pub get_objcount : Manager → List Buffer → List Buffer → Outcome Manager
  get_objcount m [] result = returns Status.ok (result ++ c.word32.encode m.obj_count ∷ []) m
  get_objcount m params result = returns Status.earg result m
