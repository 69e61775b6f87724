-- ===== src/PManager.antt =====
-- pmanager/adv_manager.hpp and pmanager/adv_manager.cpp: the provider manager. The table of
-- providers is a boost::multi_index_container, which is a parameter here (`Index`).
pub mod Table
pub mod Order
pub mod Choice
pub mod Charges
pub mod Allocation
pub mod Requests
pub mod Reports
pub mod Watchdog
use Prim.Native.String.{String}
use Table.{Entry, new_entry, Index}
use blobseer.Rpc.{Buffer, Codec, Outcome, returns, diverges, get_value, with_value, with_found}
use blobseer.Rpc.Status
use blobseer.Structures.{Provider}
use blobseer.Prelude.Texts.{before, string_discrete}
use blobseer.Prelude.{
  ℕ, zero, suc, ◌+◌, ◌%◌, ◌^◌, ap, ite, Bool, true, false, Option, none, some, List, [], ◌∷◌, ◌++◌,
  length, last_n, u64, ltb, ◌==◌, if◌then◌else◌,
}

unfoldable pub provider_discrete : Discrete Provider
unfolding string_discrete
provider_discrete p q = elim (string_discrete p.host q.host) [
  | yes h ↦ elim (string_discrete p.service q.service) [
    | yes s ↦ yes (λ i. record { host = h i; service = s i })
    | no n ↦ no (λ e. n (ap (λ r. r.service) e))
  ]
  | no n ↦ no (λ e. n (ap (λ r. r.host) e))
]

-- Seconds after which a provider that has not reported is dropped.
abbrev pub watchdog_timeout : ℕ
watchdog_timeout = 30

-- The serialised types of the two RPCs.
pub record Codecs : Type 0 where
  pub word32 : Codec ℕ
  pub word64 : Codec ℕ
  pub text : Codec String
  pub replica_list : Codec (List Provider)

abbrev pub is_in : Provider → List Provider → Bool
is_in p [] = false
is_in p (q ∷ qs) = ite (provider_discrete p q) true (is_in p qs)

-- The walk over the index by score: the first provider that is not among the recent ones. It stops
-- at the first provider with no free space.
unfoldable pub pick : List Provider → List Entry → Option Entry
pick recent [] = none
pick recent (e ∷ es) =
    if e.info.free == 0 then none else if is_in e.id recent then pick recent es else some e

-- `e.info.score++`.
abbrev pub bump : Entry → Entry
bump e = record e { info = record (e.info) { score = (e.info.score + 1) % u64 } }

-- The entry of a report at a time.
abbrev pub reported : ℕ → ℕ → ℕ → ℕ → Entry → Entry
reported now free pages total e = record e {
  timestamp = now + watchdog_timeout;
  info = record { score = e.info.score; free = free; read_pages = pages; read_total = total };
}

module _ (x : Index provider_discrete) where
  -- One round of the loop over the replicas of a page; `i` of them are allocated.
  unfoldable pub allocate : ℕ → x.Table → List Provider → Option (x.Table × List Provider)
  allocate i t taken = elim (pick (last_n i taken) (x.by_info t)) [
    | none ↦ none
    | some e ↦ some (x.replace (bump e) t, taken ++ e.id ∷ [])
  ]

  -- `for (i = 0; i < replica_no && found; i++)`, with the rounds left: whether the last one found a
  -- provider, the table and the list.
  unfoldable pub group : ℕ → ℕ → x.Table → List Provider → Bool × x.Table × List Provider
  group zero i t taken = (true, t, taken)
  group (suc n) i t taken = elim (allocate i t taken) [
    | none ↦ (false, t, taken)
    | some (t', taken') ↦ group n (suc i) t' taken'
  ]

  -- `while (adv_list.size() < no_providers && found)`, on fuel.
  unfoldable pub groups : ℕ → ℕ → ℕ → x.Table → List Provider → Option (x.Table × List Provider)
  groups zero wanted rounds t taken = none
  groups (suc fuel) wanted rounds t taken =
      let (found, t', taken') = group rounds 0 t taken in
      let next : Option (x.Table × List Provider) = elim found [
        | true ↦ groups fuel wanted rounds t' taken'
        | false ↦ some (t', taken')
      ] in
      if ltb (length taken) wanted then next else some (t, taken)

  -- `(int)replica_no`, where that is positive.
  abbrev pub rounds_of : ℕ → ℕ
  rounds_of replica_no = if ltb replica_no (2 ^ 31) then replica_no else 0

  -- Each full round of the outer loop takes at least one provider.
  abbrev pub get_fuel : ℕ → ℕ
  get_fuel wanted = suc wanted

  module _ (c : Codecs) where
    unfoldable pub get : x.Table → List Buffer → List Buffer → Outcome x.Table
    get t (p ∷ q ∷ []) result = with_value (get_value c.word32 p) result t λ wanted.
        with_value (get_value c.word32 q) result t λ replica_no.
          if wanted == 0
          then returns Status.earg result t
          else with_found (groups (get_fuel wanted) wanted (rounds_of replica_no) t []) diverges
              λ (t', taken).
                if length taken == wanted
                then returns Status.ok (result ++ c.replica_list.encode taken ∷ []) t'
                else returns Status.eres result t'
    get t params result = returns Status.earg result t

    -- `sender` is the address, a colon and the port.
    unfoldable pub update : ℕ → x.Table → List Buffer → String → List Buffer → Outcome x.Table
    update now t (p ∷ q ∷ r ∷ s ∷ []) sender result =
        with_value (get_value c.word64 p) result t λ free.
          with_value (get_value c.word64 q) result t λ pages.
            with_value (get_value c.word64 r) result t λ total.
              with_value (get_value c.text s) result t λ service.
                let id : Provider = record { host = before b':' sender; service = service } in
                let e = new_entry id now in
                returns Status.ok result (elim (x.find id t) [
                  | none ↦ x.replace (reported now free pages total e) (x.insert e t)
                  | some e' ↦ x.replace (reported now free pages total e') t
                ])
    update now t params sender result = returns Status.earg result t

  -- A round of the watchdog: while the entry with the earliest time is over, erase it. On fuel.
  unfoldable pub sweep : ℕ → ℕ → x.Table → Option x.Table
  sweep zero now t = none
  sweep (suc fuel) now t = elim (x.by_time t) [
    | [] ↦ some t
    | e ∷ rest ↦ if ltb e.timestamp now then sweep fuel now (x.erase e.id t) else some t
  ]
