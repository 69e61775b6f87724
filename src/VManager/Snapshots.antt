-- ===== src/VManager/Snapshots.antt =====
-- The roots that readers can already get, over the calls of vmanager/vmanagement.cpp.
use mathlib.Core.List.{append-nil}
use mathlib.Core.Option.{some-injective}
use blobseer.Rpc.{Buffer, Ends, hung, ended, with_value-Ends, with_found-Ends}
use blobseer.Structures.{Query, Root, null_root}
use blobseer.VManager.Intervals.{has_version, mark}
use blobseer.VManager.Order.{drain-Splits, get_or-RootsFrom}
use blobseer.VManager.Tickets.{IsValid, Versions}
use blobseer.VManager.Rpcs.{
  Request, dispatch, get_root_rpc, clone_rpc, get_ticket_rpc, publish_rpc, create_rpc,
  get_objcount_rpc,
}
use blobseer.VManager.{
  Codecs, Manager, ObjInfo, adjust, grow, grow_fuel, reserve, root_of, publish_version, next_id,
  cloned_info, new_info, get_root, clone, ticket_locked, get_ticket, publish, create, get_objcount,
}
use blobseer.Prelude.Map.{find, update, insert, find-update_self, find-update_ne, find-insert_other}
use blobseer.Prelude.{
  ℕ, zero, suc, ◌+◌, ◌%◌, ◌<◌, ◌≡◌, sym, ◌∙◌, ap, Bool, some, List, [], ◌∷◌, ◌++◌, map, length,
  get_or, length-append, get_or-append_left, arith, if_cases, u64, ℕ_discrete,
}

-- The roots of the one object are the first roots of the other.
pub record Continues (o o' : ObjInfo) : Type 0 where
  pub added : List Root
  pub roots : o'.roots ≡ o.roots ++ added

Continues-refl : (o : ObjInfo) → Continues o o
Continues-refl o = record { added = []; roots = sym (append-nil o.roots) }

publish_version-Continues : (o : ObjInfo) (v : ℕ) → Continues o (publish_version o v)
unfolding publish_version
publish_version-Continues o v =
    let s = drain-Splits o.roots (mark v o.intervals) in
    record { added = map (λ e. e.root) s.taken; roots = s.published }

reserve-Continues : (o : ObjInfo) (q : Query) (max : ℕ) → Continues o (reserve o q max).0
unfolding reserve
reserve-Continues o q max = record { added = []; roots = sym (append-nil o.roots) }

-- Every object is still there, and has kept its roots.
abbrev pub Keeps : Manager → Manager → Type 0
Keeps m m' =
    (id : ℕ) (o : ObjInfo)
    → find ℕ_discrete id m.objects ≡ some o
    → (o' : ObjInfo) × (find ℕ_discrete id m'.objects ≡ some o') × Continues o o'

module _ (c : Codecs) (m : Manager) (result : List Buffer) where
  same : Keeps m m
  same id o e = (o, e, Continues-refl o)

  inserted :
      (id : ℕ) (x : ObjInfo) (count : ℕ)
      → Keeps m (record { objects = insert ℕ_discrete id x m.objects; obj_count = count })
  inserted id x count j o e =
      (o, find-insert_other ℕ_discrete id j x o m.objects e, Continues-refl o)

  updated :
      (id : ℕ) (x x' : ObjInfo)
      → find ℕ_discrete id m.objects ≡ some x
      → Continues x x'
      → Keeps m (record m { objects = update ℕ_discrete id x' m.objects })
  updated id x x' found k j o e = elim (ℕ_discrete j id) [
    | yes p ↦ (
      x',
      rw p (find-update_self ℕ_discrete id x' x m.objects found),
      rw (some-injective o x (sym (rw p at e) ∙ found)) k,
    )
    | no p ↦ (o, find-update_ne ℕ_discrete id j x' m.objects p ∙ e, Continues-refl o)
  ]

  Kept : ℕ → List Buffer → Manager → Type 0
  Kept status r m' = Keeps m m'

  get_root-Ends : (params : List Buffer) → Ends Kept (get_root c m params result)
  unfolding get_root Kept
  get_root-Ends (p ∷ q ∷ []) = with_value-Ends _ result m same λ id.
      with_value-Ends _ result m same
        λ version. with_found-Ends (find ℕ_discrete id m.objects) (ended same) (λ o e. ended same)
  get_root-Ends _ = ended same

  clone-Ends : (params : List Buffer) → Ends Kept (clone c m params result)
  unfolding clone Kept
  clone-Ends (p ∷ q ∷ []) = with_value-Ends _ result m same λ id.
      with_value-Ends _ result m same λ version.
        with_found-Ends (find ℕ_discrete id m.objects) (ended same)
          (λ o e. ended (inserted (next_id m) (cloned_info (root_of o version)) (next_id m)))
  clone-Ends _ = ended same

  create-Ends : (params : List Buffer) → Ends Kept (create c m params result)
  unfolding create Kept
  create-Ends (p ∷ q ∷ []) = with_value-Ends _ result m same λ ps.
      with_value-Ends _ result m same
        λ rc. ended (inserted (next_id m) (new_info (next_id m) ps rc) (next_id m))
  create-Ends _ = ended same

  publish-Ends : (params : List Buffer) → Ends Kept (publish c m params result)
  unfolding publish Kept
  publish-Ends (p ∷ []) = with_value-Ends _ result m same λ i.
      with_found-Ends (find ℕ_discrete i.id m.objects) (ended same) λ o e.
        if_cases (Ends _) (has_version i.version o.intervals)
          (λ _. ended (
            updated i.id o (publish_version o i.version) e (publish_version-Continues o i.version)))
          (λ _. ended same)
  publish-Ends _ = ended same

  get_objcount-Ends : (params : List Buffer) → Ends Kept (get_objcount c m params result)
  unfolding get_objcount Kept
  get_objcount-Ends [] = ended same
  get_objcount-Ends _ = ended same

  ticket_locked-Ends :
      (q : Query) (append : Bool) (o : ObjInfo)
      → find ℕ_discrete q.id m.objects ≡ some o
      → Ends Kept (ticket_locked c m q append result o)
  unfolding ticket_locked Kept
  ticket_locked-Ends q append o found =
      let q' = adjust o q append in
      with_found-Ends (grow grow_fuel ((q'.offset + q'.size) % u64) o.max_size) hung
        λ max e. ended (updated q.id o (reserve o q' max).0 found (reserve-Continues o q' max))

  get_ticket-Ends : (params : List Buffer) → Ends Kept (get_ticket c m params result)
  unfolding get_ticket Kept
  get_ticket-Ends (p ∷ q ∷ []) = with_value-Ends _ result m same λ query.
      with_value-Ends _ result m same λ append.
        with_found-Ends (find ℕ_discrete query.id m.objects) (ended same)
          (λ o e. ticket_locked-Ends query append o e)
  get_ticket-Ends _ = ended same

  -- Whatever call returns, with whatever parameters, every object of the manager is still found
  -- under its id, and the roots it had published are still its first roots, in order.
  pub dispatch-Keeps :
      (r : Request) (params : List Buffer)
      → Ends (λ status answers m'. Keeps m m') (dispatch c r m params result)
  unfolding dispatch Kept
  dispatch-Keeps get_root_rpc = get_root-Ends
  dispatch-Keeps clone_rpc = clone-Ends
  dispatch-Keeps get_ticket_rpc = get_ticket-Ends
  dispatch-Keeps publish_rpc = publish-Ends
  dispatch-Keeps create_rpc = create-Ends
  dispatch-Keeps get_objcount_rpc = get_objcount-Ends

Versions-get_or :
    (rs : List Root) (i : ℕ)
    → Versions rs
    → 0 < i
    → i < length rs
    → (get_or rs i null_root).node.version ≡ i
Versions-get_or [] i v pos lt = absurd v
Versions-get_or (r ∷ rs) zero v pos lt = absurd (omega arith)
Versions-get_or (r ∷ rs) (suc i) v pos lt =
    get_or-RootsFrom 1 i rs null_root v (omega arith) ∙ omega arith

root_of_inside :
    (o : ObjInfo) (version : ℕ)
    → 0 < version
    → version < length o.roots
    → root_of o version ≡ get_or o.roots version null_root
unfolding root_of
root_of_inside o version pos lt = ground arith

-- A published version is what `get_root` and `clone` give for it: the root of an object that
-- satisfies the invariant carries the version asked for, and an object that continues this one
-- gives the same root.
pub root_of_published :
    (o o' : ObjInfo) (version : ℕ)
    → IsValid o
    → Continues o o'
    → 0 < version
    → version < length o.roots
    → ((root_of o version).node.version ≡ version) × (root_of o' version ≡ root_of o version)
root_of_published o o' version v k pos lt =
    let longer : version < length o'.roots =
      rw (k.roots, length-append o.roots k.added) (omega arith) in
    let kept : get_or o'.roots version null_root ≡ get_or o.roots version null_root =
      rw k.roots (get_or-append_left o.roots k.added version null_root lt) in
    (
      ap (λ r. r.node.version) (root_of_inside o version pos lt)
          ∙ Versions-get_or o.roots version v.versions pos lt,
      root_of_inside o' version pos longer ∙ kept ∙ sym (root_of_inside o version pos lt),
    )
