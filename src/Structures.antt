-- ===== src/Structures.antt =====
-- common/structures.hpp: queries (nodes of the segment tree), roots, tree nodes, and the search of
-- a list of siblings. 64-bit offsets and sizes wrap where the code adds them.
pub mod Geometry
use Prim.Native.String.{String}
use text.Mathlib.Text.{◌==◌ as str_eq}
use blobseer.Prelude.{
  ℕ, ◌+◌, ◌-◌, ◌*◌, ◌%◌, Bool, ◌&&◌, List, [], ◌∷◌, u64, ltb, leb, ◌==◌, if◌then◌else◌,
}

-- `provider_desc`.
pub record Provider : Type 0 where
  pub host : String
  pub service : String

-- `provider_desc()`.
abbrev pub null_provider : Provider
null_provider = record { host = ""; service = "" }

unfoldable pub is_empty_provider : Provider → Bool
is_empty_provider p = str_eq p.host "" && str_eq p.service ""

-- `query_t`.
pub record Query : Type 0 where
  pub id : ℕ
  pub version : ℕ
  pub offset : ℕ
  pub size : ℕ

-- The default constructor.
abbrev pub null_query : Query
null_query = record { id = 0; version = 0; offset = 0; size = 0 }

unfoldable pub intersects : Query → Query → Bool
intersects q r =
    if leb q.offset r.offset
    then ltb r.offset ((q.offset + q.size) % u64)
    else ltb q.offset ((r.offset + r.size) % u64)

-- `operator==`.
unfoldable pub same_query : Query → Query → Bool
same_query q r =
    q.id == r.id && (q.version == r.version && (q.offset == r.offset && q.size == r.size))

unfoldable pub is_empty_query : Query → Bool
is_empty_query q = q.id == 0 && (q.version == 0 && (q.offset == 0 && q.size == 0))

pub data Position : Type 0 where
  root left_child right_child : Position

-- `getParent`: the parent, and which child of it the node is. (`offset % 0` does not occur.)
unfoldable pub get_parent : Query → Query × Position
get_parent q =
    let size = (2 * q.size) % u64 in
    if q.offset % size == 0
    then (record q { size = size }, left_child)
    else (record q { size = size; offset = (q.offset + u64 - q.size) % u64 }, right_child)

-- `root_t`.
pub record Root : Type 0 where
  pub node : Query
  pub replica_count : ℕ
  pub current_size : ℕ
  pub page_size : ℕ

-- `root_t(i, v, ps, ms, rc)`.
abbrev pub make_root : ℕ → ℕ → ℕ → ℕ → ℕ → Root
make_root i v ps ms rc = record {
  node = record { id = i; version = v; offset = 0; size = ms };
  replica_count = rc;
  current_size = 0;
  page_size = ps;
}

-- `root_t(0, 0, 0, 0, 0)`.
abbrev pub null_root : Root
null_root = make_root 0 0 0 0 0

abbrev pub is_empty_root : Root → Bool
is_empty_root r = r.node.id == 0

-- `dhtnode_t`.
pub record TreeNode : Type 0 where
  pub is_leaf : Bool
  pub left : Query
  pub right : Query

-- `vmgr_reply::search_list`: the first sibling at the place, or the null query.
unfoldable pub search_list : List Query → ℕ → ℕ → Query
search_list [] offset size = null_query
search_list (q ∷ qs) offset size =
    if q.offset == offset && q.size == size then q else search_list qs offset size
