-- ===== src/VManager/Writes.antt =====
-- A write from its ticket to its publication (vmanager/vmanagement.cpp, `get_ticket` and
-- `publish`).
use blobseer.Rpc.{Buffer, diverges, returns, get_value-encode, with_value, with_found}
use blobseer.Rpc.Status
use blobseer.Structures.{Query, Root}
use blobseer.VManager.Grow.{Doubled, grow-Doubled, grow_zero}
use blobseer.VManager.Intervals.{Entry, mark, drain}
use blobseer.VManager.Order.{Numbered, Waiting, Splits, drain-Splits}
use blobseer.VManager.Tickets.{IsValid, reserve-append}
use blobseer.VManager.{
  Codecs, Manager, ObjInfo, Reply, adjust, grow, grow_fuel, latest, reserve, publish_version,
  ticket_locked, get_ticket,
}
use blobseer.Prelude.Map.{find, update}
use blobseer.Prelude.{
  ℕ, suc, ◌+◌, ◌%◌, ◌^◌, ◌≤◌, ◌<◌, ◌≡◌, ◌≢◌, refl, subst, inl, inr, Bool, true, false, ◌||◌, ◌==◌,
  Bool-cases, some, List, [], ◌∷◌, ◌++◌, map, length, arith, u64, ℕ_discrete,
}

-- The last byte that the request reaches, as the code computes it.
abbrev pub need : ObjInfo → Query → Bool → ℕ
need o q append = ((adjust o q append).offset + q.size) % u64

-- What a ticket answers, and the state that it leaves.
abbrev pub reply_of : ObjInfo → Reply
reply_of o = record { intervals = o.intervals; root_size = o.max_size; stable_root = latest o }

grow_ends :
    (o : ObjInfo) (n : ℕ)
    → 0 < o.max_size
    → n ≤ 2 ^ 63
    → (r : ℕ) × (grow grow_fuel n o.max_size ≡ some r) × Doubled n o.max_size r
grow_ends o n pos le = grow-Doubled 64 n o.max_size le (omega arith)

-- A ticket for an object whose tree is not empty, up to 2^63 bytes, is always given: the tree is
-- doubled until it holds the request, the write is queued last under the object's next version,
-- and the answer has the queue, the size of the tree and the latest published root.
pub get_ticket-returns :
    (c : Codecs) (m : Manager) (o : ObjInfo) (q : Query) (append : Bool) (result : List Buffer)
    → find ℕ_discrete q.id m.objects ≡ some o
    → IsValid o
    → 0 < o.max_size
    → need o q append ≤ 2 ^ 63
    → (size : ℕ) × (get_ticket c m (c.query.encode q ∷ c.flag.encode append ∷ []) result
        ≡ returns Status.ok
            (result ++ c.reply.encode (reply_of (reserve o (adjust o q append) size).0) ∷ [])
            (record m {
              objects = update ℕ_discrete q.id (reserve o (adjust o q append) size).0 m.objects;
            }))
      × Doubled (need o q append) o.max_size size
      × ((reserve o (adjust o q append) size).0.intervals
          ≡ o.intervals ++ (reserve o (adjust o q append) size).1 ∷ [])
      × ((reserve o (adjust o q append) size).1.key.version ≡ o.current_ticket)
unfolding get_ticket ticket_locked with_value with_found reserve
get_ticket-returns c m o q append result found v pos le =
    let (size, ends, doubled) = grow_ends o (need o q append) pos le in
    (
      size,
      rw (get_value-encode c.query q, get_value-encode c.flag append, found, ends) refl,
      doubled,
      reserve-append {o = o} (adjust o q append) size v,
      refl,
    )

-- On an object whose tree has size 0, as `create` makes it for page size 0, the loop that grows the
-- tree never ends for a request that reaches a byte.
pub get_ticket-diverges :
    (c : Codecs) (m : Manager) (o : ObjInfo) (q : Query) (append : Bool) (result : List Buffer)
    → find ℕ_discrete q.id m.objects ≡ some o
    → o.max_size ≡ 0
    → 0 < need o q append
    → get_ticket c m (c.query.encode q ∷ c.flag.encode append ∷ []) result ≡ diverges
unfolding get_ticket ticket_locked with_value with_found
get_ticket-diverges c m o q append result found z pos =
    rw
      (
        get_value-encode c.query q,
        get_value-encode c.flag append,
        found,
        z,
        grow_zero grow_fuel (need o q append) pos,
      )
      refl

-- The entry, completed if it has the version.
abbrev pub complete : ℕ → Entry → Entry
complete version e = record e { completed = e.completed || (e.key.version == version) }

untouched :
    (n t version : ℕ) (es : List Entry)
    → Numbered n es t
    → version < n
    → map (complete version) es ≡ es
untouched n t version [] q lt = refl
untouched n t version (e ∷ es) q lt =
    let other : (e.key.version == version) ≡ false = ground (arith, q.0) in
    let same : (e.completed || (e.key.version == version)) ≡ e.completed = ground (arith, other) in
    rw (same, untouched (suc n) t version es q.2 (omega arith)) refl

mark-complete :
    (n t version : ℕ) (es : List Entry)
    → Numbered n es t
    → mark version es ≡ map (complete version) es
unfolding mark
mark-complete n t version [] q = refl
mark-complete n t version (e ∷ es) q = elim (Bool-cases (e.key.version == version)) [
  | inl hit ↦
      let rest = untouched (suc n) t version es q.2 (ground (arith, q.0)) in
      let done : (e.completed || true) ≡ true = ground arith in rw (hit, rest, done) refl
  | inr miss ↦
      let same : (e.completed || false) ≡ e.completed = ground arith in
      rw (miss, same, mark-complete (suc n) t version es q.2) refl
]

-- Publishing a version of a valid object completes the queued write of that version and no other,
-- and moves exactly the longest completed prefix of the queue to the roots, in order; the rest of
-- the queue stays, and does not begin with a completed write.
pub publish_version-Splits :
    (o : ObjInfo) (version : ℕ)
    → IsValid o
    → Splits o.roots
        (map (complete version) o.intervals)
        ((publish_version o version).roots, (publish_version o version).intervals)
unfolding publish_version
publish_version-Splits o version v =
    subst (λ es. Splits o.roots es (drain o.roots (mark version o.intervals)))
      (mark-complete (length o.roots) o.current_ticket version o.intervals v.queue)
      (drain-Splits o.roots (mark version o.intervals))

waits :
    (roots : List Root) (n t version : ℕ) (es : List Entry)
    → Numbered n es t
    → Waiting es
    → version ≢ n
    → (drain roots (mark version es)).0 ≡ roots
unfolding drain mark
waits roots n t version [] q w ne = refl
waits roots n t version (e ∷ es) q w ne = ground arith

-- In a valid object a write that is not the oldest one in the queue stays invisible when it is
-- published: no root is added.
pub publish_later :
    (o : ObjInfo) (version : ℕ)
    → IsValid o
    → version ≢ length o.roots
    → (publish_version o version).roots ≡ o.roots
unfolding publish_version
publish_later o version v ne =
    waits o.roots (length o.roots) o.current_ticket version o.intervals v.queue v.waiting ne
