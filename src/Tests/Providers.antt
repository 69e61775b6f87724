-- ===== src/Tests/Providers.antt =====
-- The theorems on the provider manager, at a table of two providers.
use Prim.Native.String.{String}
use blobseer.PManager.{provider_discrete, pick, get, groups, rounds_of, update, sweep}
use blobseer.PManager.Allocation.{Allocation}
use blobseer.PManager.Order.{lt_score_not_weak}
use blobseer.PManager.Reports.{after_report, update_lem}
use blobseer.PManager.Requests.{get_lem, get_hidden, get_no_replicas}
use blobseer.PManager.Table.{Score, Entry, lt_score}
use blobseer.PManager.Watchdog.{keep_fresh, sweep_lem}
use blobseer.Prelude.Map.{find}
use blobseer.Prelude.Texts.{before, string_discrete}
use blobseer.Rpc.{returns, diverges}
use blobseer.Rpc.Status
use blobseer.Structures.{Provider}
use blobseer.Tests.Codecs.{provider_manager as codecs}
use blobseer.Tests.Tables.{rows}
use blobseer.Prelude.{
  ℕ, ◌≡◌, inl, refl, ite, true, false, none, some, List, [], ◌∷◌, length, arith, ◌==◌,
  if◌then◌else◌,
}

program : Unit {0}
unfolding lt_score pick provider_discrete string_discrete find
program = tt

abbrev at : String → Provider
at host = record { host = host; service = "1234" }

abbrev scored : ℕ → ℕ → Score
scored score free = record { score = score; free = free; read_pages = 0; read_total = 0 }

abbrev row : String → ℕ → ℕ → Entry
row host score free = record { id = at host; info = scored score free; timestamp = 100 }

abbrev table : (rows provider_discrete).Table
table = (at "a", row "a" 0 7) ∷ (at "b", row "b" 1 9) ∷ []

table-Inv : (rows provider_discrete).Inv table
unfolding program
table-Inv = ((refl, (refl, tt)), (refl, (refl, tt)))

lt_score_not_weak_example :
    (lt_score (scored 0 0) (scored 1 5) ≡ false)
    × (lt_score (scored 1 5) (scored 0 0) ≡ false)
    × (lt_score (scored 0 0) (scored 2 5) ≡ false)
    × (lt_score (scored 2 5) (scored 0 0) ≡ false)
    × (lt_score (scored 1 5) (scored 2 5) ≡ true)
lt_score_not_weak_example =
    lt_score_not_weak (scored 0 0) (scored 1 5) (scored 2 5) refl (omega arith) (omega arith)
      (omega arith) (omega arith)

picked : pick (at "a" ∷ []) (row "a" 0 7 ∷ row "b" 1 9 ∷ []) ≡ some (row "b" 1 9)
unfolding program
picked = refl

not_picked : pick (at "a" ∷ []) (row "a" 0 7 ∷ []) ≡ none
unfolding program
not_picked = refl

-- A full provider before two with space, none of which is less than one before it.
abbrev hiding : (rows provider_discrete).Table
hiding = (at "c", row "c" 0 0) ∷ (at "b", row "b" 1 9) ∷ (at "a", row "a" 1 7) ∷ []

hiding-ranked :
    (lt_score (row "b" 1 9).info (row "c" 0 0).info ≡ false)
    × (lt_score (row "a" 1 7).info (row "c" 0 0).info ≡ false)
    × (lt_score (row "a" 1 7).info (row "b" 1 9).info ≡ false)
unfolding lt_score
hiding-ranked = (refl, refl, refl)

get_hidden_example :
    get
      (rows provider_discrete)
      codecs
      hiding
      (codecs.word32.encode 2 ∷ codecs.word32.encode 1 ∷ [])
      []
    ≡ returns Status.eres [] hiding
get_hidden_example =
    get_hidden (rows provider_discrete) hiding (row "c" 0 0) (row "b" 1 9 ∷ row "a" 1 7 ∷ []) codecs
      2 1 [] refl refl (omega arith) (omega arith) (omega arith)

get_lem_example :
    (t' : (rows provider_discrete).Table) × (taken : List Provider) × Allocation
      (rows provider_discrete)
      table
      2
      1
      t'
      taken
    × (get
          (rows provider_discrete)
          codecs
          table
          (codecs.word32.encode 2 ∷ codecs.word32.encode 1 ∷ [])
          []
        ≡ (if length taken == 2
            then returns Status.ok (codecs.replica_list.encode taken ∷ []) t'
            else returns Status.eres [] t'))
get_lem_example =
    get_lem (rows provider_discrete) codecs table 2 1 [] table-Inv (omega arith) (omega arith)
      (omega arith)

get_no_replicas_example :
    (get
        (rows provider_discrete)
        codecs
        table
        (codecs.word32.encode 2 ∷ codecs.word32.encode 0 ∷ [])
        []
      ≡ diverges)
    × ((fuel : ℕ)
        → groups (rows provider_discrete) fuel 2 (rounds_of (rows provider_discrete) 0) table []
          ≡ none)
get_no_replicas_example =
    get_no_replicas (rows provider_discrete) codecs table 2 0 [] (omega arith) (inl refl)

update_lem_example :
    let id : Provider = record { host = before b':' "a:99"; service = "1234" } in
    (t' : (rows provider_discrete).Table) × (update
        (rows provider_discrete)
        codecs
        50
        table
        (codecs.word64.encode 3
          ∷ codecs.word64.encode 4
          ∷ codecs.word64.encode 5
          ∷ codecs.text.encode "1234"
          ∷ [])
        "a:99"
        []
      ≡ returns Status.ok [] t')
    × (rows provider_discrete).Inv t'
    × ((i : Provider)
        → find provider_discrete i t'
          ≡ ite
              (provider_discrete i id)
              (some (after_report 50 3 4 5 id (find provider_discrete id table)))
              (find provider_discrete i table))
update_lem_example =
    update_lem (rows provider_discrete) codecs 50 3 4 5 "1234" "a:99" table [] table-Inv

sweep_lem_example :
    (t' : (rows provider_discrete).Table) × (sweep (rows provider_discrete) 3 101 table ≡ some t')
    × (rows provider_discrete).Inv t'
    × ((i : Provider)
        → find provider_discrete i t' ≡ keep_fresh 101 (find provider_discrete i table))
sweep_lem_example =
    sweep_lem (rows provider_discrete) 101 table table-Inv ((omega arith, tt), (tt, tt))
