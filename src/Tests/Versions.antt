-- ===== src/Tests/Versions.antt =====
-- The theorems on the version manager and on queries, at concrete objects; and runs of its RPCs.
use blobseer.Prelude.Map.{find, update, insert}
use blobseer.Rpc.{Buffer, Ends, diverges, returns, get_value, with_value, with_found}
use blobseer.Rpc.Status
use blobseer.Structures.{Query, Root, make_root}
use blobseer.VManager.Appends.{stop_of, append_contiguous, write_moves_back}
use blobseer.VManager.Grow.{Doubled}
use blobseer.VManager.Intervals.{Entry, insert_entry, has_version, mark, drain}
use blobseer.VManager.Invariant.{start, call, AllSound, Reach-AllSound}
use blobseer.VManager.Order.{Splits}
use blobseer.VManager.Refusals.{Unchanged, dispatch-Unchanged}
use blobseer.VManager.Rpcs.{dispatch, create_rpc, publish_rpc, get_ticket_rpc}
use blobseer.VManager.Snapshots.{Continues, Keeps, dispatch-Keeps}
use blobseer.VManager.Tickets.{IsValid}
use blobseer.VManager.Writes.{
  need, reply_of, get_ticket-returns, get_ticket-diverges, publish_version-Splits, complete,
}
use blobseer.VManager.{
  Manager, ObjInfo, initial, latest, adjust, grow, grow_fuel, new_info, root_of, cloned_info,
  reserve, publish_version, get_root, clone, ticket_locked, get_ticket, publish, create,
  get_objcount,
}
use blobseer.Prelude.{
  ℕ, ◌+◌, ◌≤◌, ◌<◌, ◌≡◌, refl, true, false, none, some, [], ◌∷◌, ◌++◌, map, Any, inl, arith,
  ℕ_discrete,
}
use blobseer.Tests.Codecs.{version_manager as codecs, number, query, flag, codec}

program : Unit {0}
unfolding dispatch get_root clone ticket_locked get_ticket publish create get_objcount get_value
    with_value with_found find update insert ℕ_discrete grow new_info root_of cloned_info reserve
    publish_version insert_entry has_version mark drain
program = tt

abbrev encoded : ℕ → Buffer
encoded n = (codec number).encode n

abbrev request : ℕ → ℕ → ℕ → Query
request v offset size = record { id = 1; version = v; offset = offset; size = size }

-- A blob of pages of 4 bytes with 2 replicas.
abbrev created : Manager
created = record {
  objects =
      (
        1,
        record {
          roots = make_root 1 0 4 0 2 ∷ [];
          intervals = [];
          current_ticket = 1;
          max_size = 4;
          progress_size = 0;
        },
      )
      ∷ [];
  obj_count = 1;
}

create_run :
    dispatch codecs create_rpc initial (encoded 4 ∷ encoded 2 ∷ []) []
    ≡ returns Status.ok ((codecs.root.encode (make_root 1 0 4 0 2)) ∷ []) created
unfolding program
create_run = refl

Reach-AllSound_example : AllSound 1 created
Reach-AllSound_example =
    Reach-AllSound {c = codecs} (call create_rpc (encoded 4 ∷ encoded 2 ∷ []) start create_run)
      (omega arith)

dispatch-Unchanged_example :
    Ends
      (Unchanged created [])
      (dispatch codecs publish_rpc created ((codec query).encode (request 1 0 4) ∷ []) [])
dispatch-Unchanged_example =
    dispatch-Unchanged codecs created [] publish_rpc ((codec query).encode (request 1 0 4) ∷ [])

dispatch-Keeps_example :
    Ends
      (λ status answers m'. Keeps created m')
      (dispatch codecs get_ticket_rpc created
        ((codec query).encode (request 7 0 10) ∷ (codec flag).encode true ∷ [])
        [])
dispatch-Keeps_example =
    dispatch-Keeps codecs created [] get_ticket_rpc
      ((codec query).encode (request 7 0 10) ∷ (codec flag).encode true ∷ [])

abbrev root_at : ℕ → ℕ → ℕ → Root
root_at v size current = record (make_root 1 v 4 size 2) { current_size = current }

abbrev pending : ℕ → ℕ → ℕ → Entry
pending v offset size = record {
  key = request v offset size;
  root = root_at v 16 12;
  completed = false;
}

-- Version 1 is published; versions 2 and 3 are being written.
abbrev busy : ObjInfo
busy = record {
  roots = root_at 0 4 0 ∷ root_at 1 8 8 ∷ [];
  intervals = pending 2 8 4 ∷ pending 3 0 4 ∷ [];
  current_ticket = 4;
  max_size = 16;
  progress_size = 12;
}

busy-IsValid : IsValid busy
busy-IsValid = record {
  versions = omega arith;
  queue = omega arith;
  waiting = refl;
  roots_fit = omega arith;
  queue_fits = omega arith;
}

published : ObjInfo
published = publish_version busy 2

published-Continues : Continues busy published
unfolding program published
published-Continues = record { added = root_at 2 16 12 ∷ []; roots = refl }

abbrev managed : Manager
managed = record { objects = (1, busy) ∷ []; obj_count = 1 }

found : find ℕ_discrete 1 managed.objects ≡ some busy
unfolding program
found = refl

get_ticket-returns_example :
    (size : ℕ) × (get_ticket codecs managed
        (codecs.query.encode (request 9 0 30) ∷ codecs.flag.encode true ∷ [])
        []
      ≡ returns Status.ok
          (codecs.reply.encode (reply_of (reserve busy (adjust busy (request 9 0 30) true) size).0)
            ∷ [])
          (record managed {
            objects =
                update ℕ_discrete 1
                  (reserve busy (adjust busy (request 9 0 30) true) size).0
                  managed.objects;
          }))
    × Doubled (need busy (request 9 0 30) true) 16 size
    × ((reserve busy (adjust busy (request 9 0 30) true) size).0.intervals
        ≡ busy.intervals ++ (reserve busy (adjust busy (request 9 0 30) true) size).1 ∷ [])
    × ((reserve busy (adjust busy (request 9 0 30) true) size).1.key.version ≡ 4)
get_ticket-returns_example =
    get_ticket-returns codecs managed busy (request 9 0 30) true [] found busy-IsValid (omega arith)
      (omega arith)

-- A blob created with page size 0.
abbrev flat : ObjInfo
flat = record busy { max_size = 0; progress_size = 0 }

flat_found : find ℕ_discrete 1 ((1, flat) ∷ []) ≡ some flat
unfolding program
flat_found = refl

get_ticket-diverges_example :
    get_ticket codecs
      (record { objects = (1, flat) ∷ []; obj_count = 1 })
      (codecs.query.encode (request 9 0 30) ∷ codecs.flag.encode true ∷ [])
      []
    ≡ diverges
get_ticket-diverges_example =
    get_ticket-diverges codecs (record { objects = (1, flat) ∷ []; obj_count = 1 }) flat
      (request 9 0 30) true [] flat_found refl (omega arith)

publish_version-Splits_example :
    Splits busy.roots
      (map (complete 3) busy.intervals)
      ((publish_version busy 3).roots, (publish_version busy 3).intervals)
publish_version-Splits_example = publish_version-Splits busy 3 busy-IsValid

append_contiguous_example :
    let after = (reserve busy (adjust busy (request 9 0 4) true) 16).0 in
    ((reserve busy (adjust busy (request 9 0 4) true) 16).1.key.offset ≡ 12)
    × ((adjust after (request 10 0 4) true).offset ≡ 12 + 4)
    × ((latest after).current_size ≤ after.progress_size)
append_contiguous_example =
    append_contiguous busy (request 9 0 4) (request 10 0 4) 16 (omega arith) (omega arith)
      (omega arith)

write_moves_back_example :
    let after = (reserve busy (adjust busy (request 9 2 8) false) 16).0 in
    let next = adjust after (request 10 0 4) true in
    (next.offset ≡ 2 + 8) × Any (λ e. next.offset < stop_of e) after.intervals
write_moves_back_example =
    write_moves_back busy (request 9 2 8) (request 10 0 4) 16 busy-IsValid (inl refl) (omega arith)
      (omega arith) (omega arith)

grow-none : grow grow_fuel 5 0 ≡ none
unfolding program
grow-none = refl
