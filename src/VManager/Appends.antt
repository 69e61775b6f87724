-- ===== src/VManager/Appends.antt =====
-- Where appends go (vmanager/vmanagement.cpp, `get_ticket`).
use blobseer.Structures.{Query}
use blobseer.VManager.Intervals.{Entry}
use blobseer.VManager.Tickets.{IsValid, reserve-append}
use blobseer.VManager.{ObjInfo, adjust, latest, reserve}
use blobseer.Prelude.{
  Any-append_left, ℕ, ◌+◌, ◌≤◌, ◌<◌, ◌≡◌, true, false, List, [], ◌∷◌, Any, inl, inr, arith, u64,
}

-- An append of at least one byte, to an object whose reserved end is not before its published size
-- and not moved past 2^64, starts at that end; the next append starts where it ends, and the
-- reserved end is again not before the published size.
pub append_contiguous :
    (o : ObjInfo) (q q' : Query) (max : ℕ)
    → (latest o).current_size ≤ o.progress_size
    → 0 < q.size
    → o.progress_size + q.size < u64
    → let after = (reserve o (adjust o q true) max).0 in
      ((reserve o (adjust o q true) max).1.key.offset ≡ o.progress_size)
      × ((adjust after q' true).offset ≡ o.progress_size + q.size)
      × ((latest after).current_size ≤ after.progress_size)
unfolding reserve
append_contiguous o q q' max le pos lt = ground arith

-- The end of a queued write.
abbrev pub stop_of : Entry → ℕ
stop_of e = e.key.offset + e.key.size

Any-beyond :
    (n m : ℕ) (es : List Entry) → m < n → Any (λ e. stop_of e ≡ n) es → Any (λ e. m < stop_of e) es
Any-beyond n m [] lt any = absurd any
Any-beyond n m (e ∷ es) lt (inl h) = inl (omega (arith, h, lt))
Any-beyond n m (e ∷ es) lt (inr any) = inr (Any-beyond n m es lt any)

moved :
    (o : ObjInfo) (q q' : Query) (max : ℕ)
    → (latest o).current_size < q.offset + q.size
    → q.offset + q.size < o.progress_size
    → o.progress_size < u64
    → (adjust (reserve o (adjust o q false) max).0 q' true).offset ≡ q.offset + q.size
unfolding reserve
moved o q q' max above below lt = ground arith

-- In a valid object in which a write up to the end of the data reserved so far is pending, a write
-- that ends beyond the published size, but before that end, moves it back to its own end: the next
-- append starts there, below the end of a write that is still pending.
pub write_moves_back :
    (o : ObjInfo) (q q' : Query) (max : ℕ)
    → IsValid o
    → Any (λ e. stop_of e ≡ o.progress_size) o.intervals
    → (latest o).current_size < q.offset + q.size
    → q.offset + q.size < o.progress_size
    → o.progress_size < u64
    → let after = (reserve o (adjust o q false) max).0 in
      let next = adjust after q' true in
      (next.offset ≡ q.offset + q.size) × Any (λ e. next.offset < stop_of e) after.intervals
write_moves_back o q q' max v pending above below lt =
    let next = moved o q q' max above below lt in
    (
      next,
      rw (reserve-append {o = o} (adjust o q false) max v) (
          Any-append_left _ o.intervals _
            (Any-beyond o.progress_size _ o.intervals (omega (arith, next, below)) pending)),
    )
