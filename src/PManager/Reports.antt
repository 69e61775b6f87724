-- ===== src/PManager/Reports.antt =====
-- `update` of pmanager/adv_manager.cpp: the reports of the providers.
use Prim.Native.String.{String}
use blobseer.PManager.Table.{Entry, Index, new_entry}
use blobseer.PManager.{Codecs, provider_discrete, update, reported, watchdog_timeout}
use blobseer.Rpc.{Buffer, returns, with_value, get_value-encode}
use blobseer.Rpc.Status
use blobseer.Structures.{Provider}
use blobseer.Prelude.Texts.{before}
use blobseer.Prelude.{
  ℕ, ◌+◌, ◌≡◌, refl, ap, ◌∙◌, inl, inr, ite, if_pos, Option, none, some, List, [], ◌∷◌, arith,
  Option-cases,
}

-- The entry that a report leaves: the score that the provider had, or 0.
abbrev pub after_report : ℕ → ℕ → ℕ → ℕ → Provider → Option Entry → Entry
after_report now free pages total id none = record {
  id = id;
  timestamp = now + watchdog_timeout;
  info = record { score = 0; free = free; read_pages = pages; read_total = total };
}
after_report now free pages total id (some e) = record {
  id = id;
  timestamp = now + watchdog_timeout;
  info = record { score = e.info.score; free = free; read_pages = pages; read_total = total };
}

-- The table after a report of a provider that was not in it.
new_report :
    (x : Index provider_discrete) (now free pages total : ℕ) (id : Provider) (t : x.Table)
    → x.Inv t
    → x.find id t ≡ none
    → let t' =
        x.replace
          (reported now free pages total (new_entry id now))
          (x.insert (new_entry id now) t) in
      x.Inv t'
      × ((i : Provider)
          → x.find i t'
            ≡ ite
                (provider_discrete i id)
                (some (after_report now free pages total id none))
                (x.find i t))
new_report x now free pages total id t v missing =
    let e = new_entry id now in
    let (v₁, f₁) = x.find-insert e t v missing in
    let there : x.find id (x.insert e t) ≡ some e =
      f₁ id ∙ if_pos (provider_discrete id id) refl _ _ in
    let (v₂, f₂) = x.find-replace (reported now free pages total e) e (x.insert e t) v₁ there in
    (v₂, λ i. ground (arith, f₁ i, f₂ i))

-- A well-formed report always returns `ok`. The provider, named by the host before the colon of the
-- sender's address and by the service reported, then has an entry with the values reported, with
-- the score that it had (0 if it is new), valid for 30 seconds from now; no other entry changes.
pub update_lem :
    (x : Index provider_discrete) (c : Codecs) (now free pages total : ℕ) (service sender : String)
    (t : x.Table) (result : List Buffer)
    → x.Inv t
    → let id : Provider = record { host = before b':' sender; service = service } in
      (t' : x.Table) × (update x c now t
          (c.word64.encode free
            ∷ c.word64.encode pages
            ∷ c.word64.encode total
            ∷ c.text.encode service
            ∷ [])
          sender
          result
        ≡ returns Status.ok result t')
      × x.Inv t'
      × ((i : Provider)
          → x.find i t'
            ≡ ite
                (provider_discrete i id)
                (some (after_report now free pages total id (x.find id t)))
                (x.find i t))
unfolding update with_value
update_lem x c now free pages total service sender t result v =
    let id : Provider = record { host = before b':' sender; service = service } in
    elim (Option-cases (x.find id t)) [
      | inl missing ↦
          let (v', found) = new_report x now free pages total id t v missing in
          (
            x.replace (reported now free pages total (new_entry id now))
                (x.insert (new_entry id now) t),
            rw
                (
                  get_value-encode c.word64 free,
                  get_value-encode c.word64 pages,
                  get_value-encode c.word64 total,
                  get_value-encode c.text service,
                  missing,
                )
                refl,
            v',
            λ i. rw missing (found i),
          )
      | inr (e, there) ↦
          let same : e.id ≡ id = x.find-id t id e v there in
          let (v', found) =
            x.find-replace (reported now free pages total e) e t v
              (ap (λ j. x.find j t) same ∙ there) in
          (
            x.replace (reported now free pages total e) t,
            rw
                (
                  get_value-encode c.word64 free,
                  get_value-encode c.word64 pages,
                  get_value-encode c.word64 total,
                  get_value-encode c.text service,
                  there,
                )
                refl,
            v',
            λ i. found i ∙ renamed e i same there,
          )
    ]
  where
    renamed :
        (e : Entry) (i : Provider)
        → e.id ≡ record { host = before b':' sender; service = service }
        → x.find (record { host = before b':' sender; service = service }) t ≡ some e
        → ite (provider_discrete i e.id) (some (reported now free pages total e)) (x.find i t)
          ≡ ite
              (provider_discrete i (record { host = before b':' sender; service = service }))
              (some (
                after_report now free pages total
                  (record { host = before b':' sender; service = service })
                  (x.find (record { host = before b':' sender; service = service }) t)))
              (x.find i t)
    renamed e i same there = rw (there, same) refl
