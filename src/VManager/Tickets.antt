-- ===== src/VManager/Tickets.antt =====
-- The invariant of an object of the version manager, and what keeps it
-- (vmanager/vmanagement.cpp and the obj_info of common/structures.hpp).
use blobseer.Structures.{Query, Root, null_root}
use blobseer.VManager.Intervals.{Entry, mark, drain}
use blobseer.VManager.Order.{
  Numbered, RootsFrom, Waiting, insert_entry-append, append-Numbered, mark-Numbered, drain-Drained,
  drain-All,
}
use blobseer.VManager.{ObjInfo, new_info, cloned_info, reserve, latest, root_of, publish_version}
use blobseer.Prelude.{
  ℕ, suc, ◌+◌, ◌%◌, ◌≤◌, ◌<◌, ◌≡◌, refl, false, List, [], ◌∷◌, ◌++◌, length, All, All-append,
  All-map, All-last_or, All-get_or, arith, u32, u64, if_cases,
}

-- The first root has any version, a clone's is the one of its origin; the others count from 1.
abbrev pub Versions : List Root → Type 0
Versions [] = ⊥
Versions (r ∷ rs) = RootsFrom 1 rs

-- The tree of the root holds its bytes, and the tree of the object holds the root's.
abbrev pub Fits : ℕ → Root → Type 0
Fits max r = (r.current_size ≤ r.node.size) × (r.node.size ≤ max)

pub record IsValid (o : ObjInfo) : Type 0 where
  pub versions : Versions o.roots
  pub queue : Numbered (length o.roots) o.intervals o.current_ticket
  pub waiting : Waiting o.intervals
  pub roots_fit : All (Fits o.max_size) o.roots
  pub queue_fits : All (λ (e : Entry). Fits o.max_size e.root) o.intervals

pub new_info-IsValid : (id ps rc : ℕ) → IsValid (new_info id ps rc)
unfolding new_info
new_info-IsValid id ps rc = record {
  versions = tt;
  queue = refl;
  waiting = tt;
  roots_fit = ((omega arith, omega arith), tt);
  queue_fits = tt;
}

pub latest-Fits : {o : ObjInfo} → IsValid o → Fits o.max_size (latest o)
latest-Fits {o} v =
    All-last_or (Fits o.max_size) o.roots null_root (omega arith, omega arith) v.roots_fit

pub root_of-Fits : {o : ObjInfo} (version : ℕ) → IsValid o → Fits o.max_size (root_of o version)
unfolding root_of
root_of-Fits {o} version v =
    if_cases (Fits o.max_size) _ (λ _. latest-Fits {o = o} v)
      (λ inside. All-get_or (Fits o.max_size) o.roots version null_root (ground arith) v.roots_fit)

pub cloned_info-IsValid :
    {o : ObjInfo} (version : ℕ) → IsValid o → IsValid (cloned_info (root_of o version))
unfolding cloned_info
cloned_info-IsValid {o} version v = record {
  versions = tt;
  queue = refl;
  waiting = tt;
  roots_fit = (((root_of-Fits {o = o} version v).0, omega arith), tt);
  queue_fits = tt;
}

Waiting-append :
    (es : List Entry) (e : Entry) → Waiting es → e.completed ≡ false → Waiting (es ++ e ∷ [])
Waiting-append [] e w h = h
Waiting-append (x ∷ es) e w h = w

-- The entry that a reservation queues comes last.
pub reserve-append :
    {o : ObjInfo} (q : Query) (max : ℕ)
    → IsValid o
    → (reserve o q max).0.intervals ≡ o.intervals ++ (reserve o q max).1 ∷ []
unfolding reserve
reserve-append {o} q max v =
    insert_entry-append (length o.roots) o.current_ticket _ o.intervals v.queue refl

new-Fits :
    (o : ObjInfo) (q : Query) (max : ℕ)
    → Fits o.max_size (latest o)
    → o.max_size ≤ max
    → (q.offset + q.size) % u64 ≤ max
    → (reserve o q max).1.root.current_size ≤ max
unfolding reserve
new-Fits o q max stable grown holds = ground arith

-- A reservation keeps the invariant, unless the 32-bit ticket wraps.
pub reserve-IsValid :
    {o : ObjInfo} (q : Query) (max : ℕ)
    → IsValid o
    → o.current_ticket + 1 < u32
    → o.max_size ≤ max
    → (q.offset + q.size) % u64 ≤ max
    → IsValid (reserve o q max).0
unfolding reserve
reserve-IsValid {o} q max v room grown holds = record {
  versions = v.versions;
  queue =
      let e : (o.current_ticket + 1) % u32 ≡ suc o.current_ticket = omega arith in
      rw (reserve-append {o = o} q max v, e)
        (append-Numbered (length o.roots) o.current_ticket (reserve o q max).1 o.intervals v.queue
          refl refl);
  waiting =
      rw (reserve-append {o = o} q max v)
        (Waiting-append o.intervals (reserve o q max).1 v.waiting refl);
  roots_fit = All-map (Fits o.max_size) (Fits max) o.roots (λ r h. (h.0, omega arith)) v.roots_fit;
  queue_fits = rw (reserve-append {o = o} q max v) (
      All-append (λ (e : Entry). Fits max e.root) o.intervals ((reserve o q max).1 ∷ [])
        (All-map (λ (e : Entry). Fits o.max_size e.root) (λ e. Fits max e.root) o.intervals
          (λ e h. (h.0, omega arith)) v.queue_fits)
        ((new-Fits o q max (latest-Fits {o = o} v) grown holds, omega arith), tt));
}

mark-Fits :
    (max v : ℕ) (es : List Entry)
    → All (λ (e : Entry). Fits max e.root) es
    → All (λ (e : Entry). Fits max e.root) (mark v es)
unfolding mark
mark-Fits max v [] h = h
mark-Fits max v (e ∷ es) h = ground (arith, mark-Fits max v es h.1)

drain-Versions :
    (v t : ℕ) (roots : List Root) (es : List Entry)
    → Versions roots
    → Numbered (length roots) es t
    → Versions (drain roots es).0
      × Numbered (length (drain roots es).0) (drain roots es).1 t
      × Waiting (drain roots es).1
drain-Versions v t [] es h q = absurd h
drain-Versions v t (r ∷ rs) es h q =
    let d = drain-Drained r rs t es h q in (rw d.kept d.versions, rw d.kept d.queue, d.waiting)

-- Publishing keeps it, whatever the version.
pub publish_version-IsValid :
    {o : ObjInfo} (version : ℕ) → IsValid o → IsValid (publish_version o version)
unfolding publish_version
publish_version-IsValid {o} version v =
    let marked = mark version o.intervals in
    let d =
      drain-Versions version o.current_ticket o.roots marked v.versions
        (mark-Numbered (length o.roots) o.current_ticket version o.intervals v.queue) in
    let f =
      drain-All (Fits o.max_size) (λ (e : Entry). Fits o.max_size e.root) o.roots marked (λ e h. h)
        v.roots_fit (mark-Fits o.max_size version o.intervals v.queue_fits) in
    record { versions = d.0; queue = d.1; waiting = d.2; roots_fit = f.0; queue_fits = f.1 }
