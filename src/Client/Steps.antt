-- ===== src/Client/Steps.antt =====
-- The steps of a write of client/object_handler.cpp, in the order in which they are taken.
use mathlib.Core.List.{append-nil, append_assoc}
use blobseer.Client.{Answer, ObjectHandler, raised, undefined, returned, rpc_get_serialized}
use blobseer.Client.Copies.{bytes}
use blobseer.Client.Reads.{Memory}
use blobseer.Client.Writes.{
  Step, wrote_replica, asked_ticket, put_locations, asked_publish, Outcome, Pages, null_reply,
  page_key_of, write_pages, write_replicas, add_page, all_written, publish_range, after_tree,
  after_ticket, with_ticket, after_check, after_pages, exec_write,
}
use blobseer.Client.Written.{IsWritten, write_pages-Kept}
use blobseer.RangeQuery.{Put}
use blobseer.RangeQuery.Records.{newest_key}
use blobseer.Rpc.{Buffer, Codec}
use blobseer.Structures.{Provider, Query}
use blobseer.VManager.{Codecs, Reply}
use blobseer.VManager.Intervals.{Entry}
use blobseer.VManager.Rpcs.{Request, get_ticket_rpc}
use blobseer.Prelude.{
  ℕ, zero, suc, ◌+◌, ◌*◌, ◌/◌, ◌%◌, ◌<◌, ◌≡◌, refl, sym, ap, ◌∙◌, Bool, true, false, not, ◌||◌,
  Option, none, some, List, [], ◌∷◌, ◌++◌, length, Any, u64, ltb, ◌==◌, arith, All, All-append,
  if_cases, take, drop,
}

-- Every way in which a write returns satisfies `P`.
pub data Returns (P : Bool → ObjectHandler → List Step → Type 0) : Outcome → Type 0 where
  threw : Returns P raised
  strayed : Returns P undefined
  ended :
      {b : Bool} {h : ObjectHandler} {steps : List Step}
      → P b h steps
      → Returns P (returned (b, h, steps))

-- A step of the pages' writing.
abbrev pub IsPage : Step → Type 0
IsPage (wrote_replica k p b) = Unit
IsPage _ = ⊥

-- What the version manager answers to the request for a ticket.
abbrev pub ticket_of : Codecs → (Request → List Buffer → Answer) → Query → Bool → Bool × Reply
ticket_of c vmgr range append =
    rpc_get_serialized c.reply true null_reply
      (vmgr get_ticket_rpc (c.query.encode range ∷ c.flag.encode append ∷ []))

-- Some replica of each page of the range was written.
abbrev pub Covered : Query → ℕ → List Step → Type 0
Covered range page_size steps =
    (i : ℕ)
    → i * page_size < range.size
    → Any (IsWritten (page_key_of range.id range.version page_size i)) steps

-- The steps after those of the pages, and whether the write answers true. `intervals` are those of
-- the ticket's reply.
pub data Course (range : Query) (page_size : ℕ) (intervals : List Entry) (pages : List Step)
    : Bool → List Step → Type 0 where
  gave_up : Course range page_size intervals pages false []
  refused :
      Covered range page_size pages
      → Course range page_size intervals pages false (asked_ticket range ∷ [])
  unplaced :
      Covered range page_size pages
      → (puts : List Put)
      → Course range page_size intervals pages false
          (asked_ticket range ∷ put_locations false puts ∷ [])
  placed :
      Covered range page_size pages
      → (b : Bool) (puts : List Put) (e : Entry) (es : List Entry) → intervals ≡ e ∷ es
      → Course range page_size intervals pages b
          (asked_ticket range ∷ put_locations true puts ∷ asked_publish (newest_key e es) ∷ [])

-- A write of pages of a size under the id and the version of `range`, begun by the client `h`.
pub record IsOrdered (range : Query) (page_size : ℕ) (intervals : List Entry) (h : ObjectHandler)
    (b : Bool) (h' : ObjectHandler) (steps : List Step) : Type 0 where
  pub pages : List Step
  pub others : List Step
  pub split : steps ≡ pages ++ others
  pub only_pages : All IsPage pages
  pub course : Course range page_size intervals pages b others
  pub keeps : b ≡ false → h' ≡ h

write_replicas-IsPage :
    (net : ℕ → Provider → List Buffer → ℕ) (retry_count : ℕ) (key : Query) (params : List Buffer)
    (ps : List Provider)
    → All IsPage (write_replicas net retry_count key params ps).1
unfolding write_replicas
write_replicas-IsPage net retry_count key params [] = tt
write_replicas-IsPage net retry_count key params (p ∷ ps) =
    (tt, write_replicas-IsPage net retry_count key params ps)

abbrev AllPages : Option Pages → Type 0
AllPages none = Unit
AllPages (some p) = All IsPage p.steps

add_page-AllPages :
    (key : Query) (page : List Bool × List Step) (o : Option Pages)
    → All IsPage page.1
    → AllPages o
    → AllPages (add_page key page o)
add_page-AllPages key page none all rest = tt
add_page-AllPages key page (some r) all rest = All-append IsPage page.1 r.steps all rest

write_pages-AllPages :
    (c : Codecs) (net : ℕ → Provider → List Buffer → ℕ) (retry_count : ℕ) (mem : Memory)
    (range : Query) (page_size replica_count fuel i : ℕ) (adv : List Provider)
    → AllPages (write_pages c net retry_count mem range page_size replica_count fuel i adv)
unfolding write_pages
write_pages-AllPages c net retry_count mem range page_size replica_count zero i adv = tt
write_pages-AllPages c net retry_count mem range page_size replica_count (suc fuel) i adv =
    let key = page_key_of range.id range.version page_size i in
    let params = c.query.encode key ∷ bytes mem (i * page_size % u64) page_size ∷ [] in
    if_cases AllPages (not (ltb (i * page_size % u64) range.size)) (λ e. tt)
      (λ e.
        if_cases AllPages (ltb (length adv) replica_count) (λ f. tt)
          (λ f.
            add_page-AllPages key
              (write_replicas net retry_count key params (take replica_count adv))
              (write_pages c net retry_count mem range page_size replica_count fuel (suc i)
                (drop replica_count adv))
              (write_replicas-IsPage net retry_count key params (take replica_count adv))
              (write_pages-AllPages c net retry_count mem range page_size replica_count fuel (suc i)
                (drop replica_count adv))))

module _ (c : Codecs) (lc : Codec (List Provider)) (vmgr : Request → List Buffer → Answer)
    (publisher : List Buffer → Answer) (net : ℕ → Provider → List Buffer → ℕ)
    (put_tree : Reply → List Provider → List Query → Option (Bool × List Put)) (range : Query)
    (append : Bool) (page_size : ℕ) (h : ObjectHandler) where
  abbrev Ordered : Outcome → Type 0
  Ordered = Returns (IsOrdered range page_size (ticket_of c vmgr range append).1.intervals h)

  module _ (pages : List Step) (all : All IsPage pages) where
    gives_up : Ordered (returned (false, h, pages))
    gives_up = ended (record {
      pages = pages;
      others = [];
      split = sym (append-nil pages);
      only_pages = all;
      course = gave_up;
      keeps = λ e. refl;
    })

    module _ (cover : Covered range page_size pages) where
      after_tree-Ordered :
          (e : Entry) (es : List Entry) (o : Option (Bool × List Put))
          → (ticket_of c vmgr range append).1.intervals ≡ e ∷ es
          → Ordered (
              after_tree c lc vmgr publisher net put_tree
                (newest_key e es)
                (pages ++ asked_ticket range ∷ [])
                h
                o)
      unfolding after_tree publish_range
      after_tree-Ordered e es none same = strayed
      after_tree-Ordered e es (some (false, puts)) same = ended (record {
        pages = pages;
        others = asked_ticket range ∷ put_locations false puts ∷ [];
        split = append_assoc pages (asked_ticket range ∷ []) (put_locations false puts ∷ []);
        only_pages = all;
        course = unplaced cover puts;
        keeps = λ t. refl;
      })
      after_tree-Ordered e es (some (true, puts)) same = ended (record {
        pages = pages;
        others =
            asked_ticket range ∷ put_locations true puts ∷ asked_publish (newest_key e es) ∷ [];
        split =
            ap (λ t. t ++ asked_publish (newest_key e es) ∷ [])
              (append_assoc pages (asked_ticket range ∷ []) (put_locations true puts ∷ []))
            ∙ append_assoc pages (asked_ticket range ∷ put_locations true puts ∷ [])
                (asked_publish (newest_key e es) ∷ []);
        only_pages = all;
        course = placed cover _ puts e es same;
        keeps = λ t. rw t refl;
      })

      after_ticket-Ordered :
          (reply : Reply) (adv : List Provider) (deque : List Query) (intervals : List Entry)
          → (ticket_of c vmgr range append).1.intervals ≡ intervals
          → Ordered (
              after_ticket c lc vmgr publisher net put_tree reply adv deque
                (pages ++ asked_ticket range ∷ [])
                h
                intervals)
      unfolding after_ticket
      after_ticket-Ordered reply adv deque [] same = strayed
      after_ticket-Ordered reply adv deque (i ∷ is) same =
          after_tree-Ordered i is (put_tree reply adv deque) same

      with_ticket-Ordered :
          (adv : List Provider) (deque : List Query)
          → Ordered (with_ticket c lc vmgr publisher net put_tree range append adv deque pages h)
      unfolding with_ticket
      with_ticket-Ordered adv deque =
          let answer = ticket_of c vmgr range append in
          if_cases Ordered (not answer.0)
            (λ e. ended (record {
              pages = pages;
              others = asked_ticket range ∷ [];
              split = refl;
              only_pages = all;
              course = refused cover;
              keeps = λ t. refl;
            }))
            (λ e. after_ticket-Ordered answer.1 adv deque answer.1.intervals refl)

  check-Ordered :
      (adv : List Provider) (p : Pages) (o : Option Bool)
      → (o ≡ some true → Covered range page_size p.steps)
      → All IsPage p.steps
      → Ordered (after_check c lc vmgr publisher net put_tree range append adv p h o)
  unfolding after_check
  check-Ordered adv p none cover all = strayed
  check-Ordered adv p (some false) cover all = gives_up p.steps all
  check-Ordered adv p (some true) cover all =
      with_ticket-Ordered p.steps all (cover refl) adv p.node_deque

  after_pages-Ordered :
      (adv : List Provider) (o : Option Pages)
      → ((p : Pages)
          → o ≡ some p
          → all_written (suc (length p.page_results)) h.latest_root.replica_count p.page_results
            ≡ some true
          → Covered range page_size p.steps)
      → AllPages o
      → Ordered (after_pages c lc vmgr publisher net put_tree range append adv h o)
  unfolding after_pages
  after_pages-Ordered adv none cover all = strayed
  after_pages-Ordered adv (some p) cover all =
      check-Ordered adv p
        (all_written (suc (length p.page_results)) h.latest_root.replica_count p.page_results)
        (cover p refl) all

-- However a write of a blob with at least one replica to a page returns, its steps are the writes of
-- the replicas, and after them either nothing; or, with each page on some replica, the request for a
-- ticket; or that and puts of the metadata that were not all good; or these, all good, and the
-- request to publish the newest interval of the ticket's reply. It answers true only in the last
-- case, and where it answers false the client's state is unchanged.
pub exec_write-IsOrdered :
    (c : Codecs) (lc : Codec (List Provider)) (vmgr : Request → List Buffer → Answer)
    (publisher : List Buffer → Answer) (net : ℕ → Provider → List Buffer → ℕ)
    (put_tree : Reply → List Provider → List Query → Option (Bool × List Put)) (offset size : ℕ)
    (mem : Memory) (append : Bool) (version : ℕ) (h : ObjectHandler)
    → 0 < h.latest_root.replica_count
    → let range : Query = record { id = h.id; version = version; offset = offset; size = size } in
      Returns
        (IsOrdered range h.latest_root.page_size (ticket_of c vmgr range append).1.intervals h)
        (exec_write c lc vmgr publisher net put_tree offset size mem append version h)
unfolding exec_write
exec_write-IsOrdered c lc vmgr publisher net put_tree offset size mem append version h pos =
    let latest = h.latest_root in
    let range : Query = record { id = h.id; version = version; offset = offset; size = size } in
    let wanted = size / latest.page_size * latest.replica_count % u64 in
    let answer =
      rpc_get_serialized lc true []
        (publisher (c.word64.encode wanted ∷ c.word32.encode latest.replica_count ∷ [])) in
    let fuel = size / latest.page_size + 2 in
    let P =
      Returns (IsOrdered range latest.page_size (ticket_of c vmgr range append).1.intervals h) in
    if_cases P (latest.page_size == 0) (λ e. threw)
      (λ e.
        if_cases P (not answer.0 || ltb (length answer.1) wanted)
          (λ f. gives_up c lc vmgr publisher net put_tree range append latest.page_size h [] tt)
          (λ f.
            after_pages-Ordered c lc vmgr publisher net put_tree range append latest.page_size h
              answer.1
              (write_pages c net h.retry_count mem range latest.page_size latest.replica_count fuel
                0 answer.1)
              (λ p same all i lt.
                write_pages-Kept c net h.retry_count mem range latest.page_size latest.replica_count
                  fuel 0 answer.1 pos p (suc (length p.page_results)) i same all (omega arith) lt)
              (write_pages-AllPages c net h.retry_count mem range latest.page_size
                latest.replica_count fuel 0 answer.1)))
