-- ===== src/Provider/Listener.antt =====
-- provider/pmgr_listener.cpp: the listener that reports a provider to the provider manager. A
-- report sent is recorded with its parameters; the waits started on the timer
-- are counted.
use Prim.Native.String.{String}
use blobseer.PManager
use blobseer.Provider.{Event, Hook, provider_read, provider_write}
use blobseer.Rpc.{Buffer}
use blobseer.Prelude.{
  ℕ, ◌+◌, ◌%◌, ◌≡◌, ◌<◌, ◌∙◌, ◌⊎◌, inl, inr, Bool-cases, refl, Bool, false, List, [], ◌∷◌, ◌++◌,
  u64, ◌==◌, if◌then◌else◌, arith,
}

pub record Listener : Type 0 where
  pub service : String
  pub free_space : ℕ
  pub nr_read_pages : ℕ
  pub total_read_size : ℕ
  -- The parameters of the reports dispatched, in order.
  pub sent : List (List Buffer)
  pub waits : ℕ

module _ (c : PManager.Codecs) where
  -- `timeout_callback`; an aborted timer reports nothing.
  unfoldable pub timeout_callback : Bool → Listener → Listener
  timeout_callback aborted l = if aborted then l else record l {
    sent =
        l.sent
        ++ (c.word64.encode l.free_space
            ∷ c.word64.encode l.nr_read_pages
            ∷ c.word64.encode l.total_read_size
            ∷ c.text.encode l.service
            ∷ [])
          ∷ [];
  }

  -- The constructor: the first report is sent at once.
  unfoldable pub new_listener : ℕ → String → Listener
  new_listener free_space service = timeout_callback false (record {
    service = service;
    free_space = free_space;
    nr_read_pages = 0;
    total_read_size = 0;
    sent = [];
    waits = 0;
  })

  unfoldable pub update_event : Event → Listener → Listener
  update_event e l = elim e.name [
    | provider_write ↦
        let l' = record l { free_space = e.free } in
        if e.free == 0 then timeout_callback false l' else l'
    | provider_read ↦ record l {
      nr_read_pages = (l.nr_read_pages + 1) % u64;
      total_read_size = (l.total_read_size + e.page_size) % u64;
    }
  ]

-- `provider_callback`, whatever the answer was.
unfoldable pub provider_callback : Listener → Listener
provider_callback l = record l { nr_read_pages = 0; total_read_size = 0; waits = l.waits + 1 }

-- The listener after a sequence of events.
unfoldable pub update_events : PManager.Codecs → List Event → Listener → Listener
update_events c [] l = l
update_events c (e ∷ es) l = update_events c es (update_event c e l)

-- The pages and the bytes read, and the free space last told.
unfoldable pub reads_no : List Event → ℕ
reads_no [] = 0
reads_no (e ∷ es) = elim e.name [ provider_read ↦ 1 + reads_no es | provider_write ↦ reads_no es ]

unfoldable pub read_bytes : List Event → ℕ
read_bytes [] = 0
read_bytes (e ∷ es) = elim e.name [
  | provider_read ↦ e.page_size + read_bytes es
  | provider_write ↦ read_bytes es
]

unfoldable pub last_free : List Event → ℕ → ℕ
last_free [] free = free
last_free (e ∷ es) free = elim e.name [
  | provider_read ↦ last_free es free
  | provider_write ↦ last_free es e.free
]

hook_cases : (h : Hook) → (h ≡ provider_read) ⊎ (h ≡ provider_write)
hook_cases provider_read = inl refl
hook_cases provider_write = inr refl

-- The fields of the listener that a report carries.
pub record Reports (l : Listener) (es : List Event) (l' : Listener) : Type 0 where
  pub free : l'.free_space ≡ last_free es l.free_space
  pub reads : l'.nr_read_pages ≡ (l.nr_read_pages + reads_no es) % u64
  pub bytes : l'.total_read_size ≡ (l.total_read_size + read_bytes es) % u64
  pub service : l'.service ≡ l.service
  pub waits : l'.waits ≡ l.waits

-- After any events the listener holds the free space last told, and the pages and bytes read since
-- it was as before, as 64-bit words.
pub update_events-Reports :
    (c : PManager.Codecs) (es : List Event) (l : Listener)
    → l.nr_read_pages < u64
    → l.total_read_size < u64
    → Reports l es (update_events c es l)
unfolding update_events update_event timeout_callback reads_no read_bytes last_free
update_events-Reports c [] l p q = record {
  free = refl;
  reads = ground arith;
  bytes = ground arith;
  service = refl;
  waits = refl;
}
update_events-Reports c (e ∷ es) l p q = elim (hook_cases e.name) [
  | inl h ↦
      let next =
        update_events-Reports c es
          (record l {
            nr_read_pages = (l.nr_read_pages + 1) % u64;
            total_read_size = (l.total_read_size + e.page_size) % u64;
          })
          (omega arith) (omega arith) in
      rw h (record {
        free = next.free;
        reads = next.reads ∙ omega arith;
        bytes = next.bytes ∙ omega arith;
        service = next.service;
        waits = next.waits;
      })
  | inr h ↦ elim (Bool-cases (e.free == 0)) [
    | inl full ↦
        let next =
          update_events-Reports c es (timeout_callback c false (record l { free_space = e.free })) p
            q in
        rw (h, full)
          (record {
            free = next.free;
            reads = next.reads;
            bytes = next.bytes;
            service = next.service;
            waits = next.waits;
          })
    | inr space ↦
        let next = update_events-Reports c es (record l { free_space = e.free }) p q in
        rw (h, space)
          (record {
            free = next.free;
            reads = next.reads;
            bytes = next.bytes;
            service = next.service;
            waits = next.waits;
          })
  ]
]
