-- ===== src/VManager/Invariant.antt =====
-- Sequences of RPCs and the invariant of the objects (vmanager/vmanagement.cpp).
use blobseer.Rpc.{Buffer, returns, Ends, hung, ended, of_ended, with_value-Ends, with_found-Ends}
use blobseer.Structures.{Query}
use blobseer.VManager.Grow.{grow-le}
use blobseer.VManager.Intervals.{has_version}
use blobseer.VManager.Objects.{All-find, All-update, All-insert}
use blobseer.VManager.Rpcs.{
  Request, dispatch, get_root_rpc, clone_rpc, get_ticket_rpc, publish_rpc, create_rpc,
  get_objcount_rpc,
}
use blobseer.VManager.Tickets.{
  IsValid, new_info-IsValid, cloned_info-IsValid, reserve-IsValid, publish_version-IsValid,
}
use blobseer.VManager.{
  Codecs, Manager, ObjInfo, initial, next_id, adjust, grow, grow_fuel, reserve, new_info,
  cloned_info, root_of, publish_version, get_root, clone, ticket_locked, get_ticket, publish,
  create, get_objcount,
}
use blobseer.Prelude.Map.{find}
use blobseer.Prelude.{
  ℕ, suc, ◌+◌, ◌%◌, ◌≤◌, ◌<◌, ◌≡◌, subst, Bool, some, List, [], ◌∷◌, All, All-map, arith, if_cases,
  u32, u64, ℕ_discrete,
}

-- The object satisfies its invariant, and has given out fewer than `n` tickets.
abbrev pub Sound : ℕ → ObjInfo → Type 0
Sound n o = IsValid o × (o.current_ticket ≤ n)

abbrev pub AllSound : ℕ → Manager → Type 0
AllSound n m = All (λ (e : ℕ × ObjInfo). Sound n e.1) m.objects

Sound-suc : (n : ℕ) (o : ObjInfo) → Sound n o → Sound (suc n) o
Sound-suc n o h = (h.0, omega arith)

reserve-ticket :
    (n : ℕ) (o : ObjInfo) (q : Query) (max : ℕ)
    → o.current_ticket ≤ n
    → suc n < u32
    → (reserve o q max).0.current_ticket ≤ suc n
unfolding reserve
reserve-ticket n o q max h room = omega arith

cloned_info-ticket :
    (n : ℕ) (o : ObjInfo) (v : ℕ) → (cloned_info (root_of o v)).current_ticket ≤ suc n
unfolding cloned_info
cloned_info-ticket n o v = omega arith

new_info-ticket : (n id ps rc : ℕ) → (new_info id ps rc).current_ticket ≤ suc n
unfolding new_info
new_info-ticket n id ps rc = omega arith

publish_version-ticket :
    (n : ℕ) (o : ObjInfo) (v : ℕ)
    → o.current_ticket ≤ n
    → (publish_version o v).current_ticket ≤ suc n
unfolding publish_version
publish_version-ticket n o v h = omega arith

module _ (c : Codecs) (n : ℕ) (m : Manager) (v : AllSound n m) (result : List Buffer) where
  Kept : ℕ → List Buffer → Manager → Type 0
  Kept status r m' = AllSound (suc n) m'

  weaker : AllSound (suc n) m
  weaker =
      All-map (λ (e : ℕ × ObjInfo). Sound n e.1) (λ e. Sound (suc n) e.1) m.objects
        (λ e h. Sound-suc n e.1 h) v

  object : (id : ℕ) {o : ObjInfo} → find ℕ_discrete id m.objects ≡ some o → Sound n o
  object id e = All-find (Sound n) id m.objects v e

  get_root-Ends : (params : List Buffer) → Ends Kept (get_root c m params result)
  unfolding get_root Kept
  get_root-Ends (p ∷ q ∷ []) = with_value-Ends _ result m weaker λ id.
      with_value-Ends _ result m weaker λ version.
        with_found-Ends (find ℕ_discrete id m.objects) (ended weaker) (λ o e. ended weaker)
  get_root-Ends _ = ended weaker

  clone-Ends : (params : List Buffer) → Ends Kept (clone c m params result)
  unfolding clone Kept
  clone-Ends (p ∷ q ∷ []) = with_value-Ends _ result m weaker λ id.
      with_value-Ends _ result m weaker λ version.
        with_found-Ends (find ℕ_discrete id m.objects) (ended weaker) λ o e. ended (
          All-insert (Sound (suc n)) (next_id m) (cloned_info (root_of o version)) m.objects
            (cloned_info-IsValid {o = o} version (object id e).0, cloned_info-ticket n o version)
            weaker)
  clone-Ends _ = ended weaker

  create-Ends : (params : List Buffer) → Ends Kept (create c m params result)
  unfolding create Kept
  create-Ends (p ∷ q ∷ []) = with_value-Ends _ result m weaker λ ps.
      with_value-Ends _ result m weaker λ rc. ended (
        All-insert (Sound (suc n)) (next_id m) (new_info (next_id m) ps rc) m.objects
          (new_info-IsValid (next_id m) ps rc, new_info-ticket n (next_id m) ps rc) weaker)
  create-Ends _ = ended weaker

  publish-Ends : (params : List Buffer) → Ends Kept (publish c m params result)
  unfolding publish Kept
  publish-Ends (p ∷ []) = with_value-Ends _ result m weaker λ i.
      with_found-Ends (find ℕ_discrete i.id m.objects) (ended weaker) λ o e.
        if_cases (Ends _) (has_version i.version o.intervals)
          (λ _. ended (
            All-update (Sound (suc n)) i.id (publish_version o i.version) m.objects
              (
                publish_version-IsValid {o = o} i.version (object i.id e).0,
                publish_version-ticket n o i.version (object i.id e).1,
              )
              weaker))
          (λ _. ended weaker)
  publish-Ends _ = ended weaker

  get_objcount-Ends : (params : List Buffer) → Ends Kept (get_objcount c m params result)
  unfolding get_objcount Kept
  get_objcount-Ends [] = ended weaker
  get_objcount-Ends _ = ended weaker

  module _ (room : suc n < u32) where
    ticket_locked-Ends :
        (q : Query) (append : Bool) (o : ObjInfo)
        → Sound n o
        → Ends Kept (ticket_locked c m q append result o)
    unfolding ticket_locked Kept
    ticket_locked-Ends q append o h =
        let q' = adjust o q append in
        with_found-Ends (grow grow_fuel ((q'.offset + q'.size) % u64) o.max_size) hung λ max e.
          let bounds = grow-le grow_fuel ((q'.offset + q'.size) % u64) o.max_size max e in
          ended (
            All-update (Sound (suc n)) q.id (reserve o q' max).0 m.objects
              (
                reserve-IsValid {o = o} q' max h.0 (omega arith) bounds.1 bounds.0,
                reserve-ticket n o q' max h.1 room,
              )
              weaker)

    get_ticket-Ends : (params : List Buffer) → Ends Kept (get_ticket c m params result)
    unfolding get_ticket Kept
    get_ticket-Ends (p ∷ q ∷ []) = with_value-Ends _ result m weaker λ query.
        with_value-Ends _ result m weaker λ append.
          with_found-Ends (find ℕ_discrete query.id m.objects) (ended weaker)
            λ o e. ticket_locked-Ends query append o (object query.id e)
    get_ticket-Ends _ = ended weaker

    dispatch-Ends : (r : Request) (params : List Buffer) → Ends Kept (dispatch c r m params result)
    unfolding dispatch
    dispatch-Ends get_root_rpc = get_root-Ends
    dispatch-Ends clone_rpc = clone-Ends
    dispatch-Ends get_ticket_rpc = get_ticket-Ends
    dispatch-Ends publish_rpc = publish-Ends
    dispatch-Ends create_rpc = create-Ends
    dispatch-Ends get_objcount_rpc = get_objcount-Ends

-- The states that `n` calls that returned lead to, in any order and with any parameters. A call
-- that throws changes nothing, and after one that diverges there is no other.
pub data Reach (c : Codecs) : ℕ → Manager → Type 0 where
  start : Reach c 0 initial
  call :
      {n status : ℕ} {m m' : Manager} {result : List Buffer} (r : Request) (params : List Buffer)
      → Reach c n m
      → dispatch c r m params [] ≡ returns status result m'
      → Reach c (suc n) m'

-- In a state that fewer than 2^32 calls lead to, every object satisfies its invariant: after the
-- first root, which in a clone keeps the version of the root that was cloned, the published roots
-- and then the queued writes carry the versions 1, 2, 3 and so on, and the current ticket is the
-- next one; the first write in the queue is not completed, and every root fits the tree of its
-- object.
pub Reach-AllSound : {c : Codecs} {n : ℕ} {m : Manager} → Reach c n m → n < u32 → AllSound n m
unfolding Kept
Reach-AllSound start room = tt
Reach-AllSound {c} (call {n = n} {m = m} r params h e) room =
    of_ended
      (subst (Ends _) e (dispatch-Ends c n m (Reach-AllSound h (omega arith)) [] room r params))
