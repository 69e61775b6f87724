-- ===== src/VManager/Refusals.antt =====
-- What the RPCs of vmanager/vmanagement.cpp do on their error paths.
use blobseer.Rpc.{Buffer, Ends, hung, ended, with_value-Ends, with_found-Ends}
use blobseer.Rpc.Status
use blobseer.Structures.{Query}
use blobseer.VManager.Intervals.{has_version}
use blobseer.VManager.Rpcs.{
  Request, dispatch, get_root_rpc, clone_rpc, get_ticket_rpc, publish_rpc, create_rpc,
  get_objcount_rpc,
}
use blobseer.VManager.{
  Codecs, Manager, ObjInfo, adjust, grow, grow_fuel, get_root, clone, ticket_locked, get_ticket,
  publish, create, get_objcount,
}
use blobseer.Prelude.Map.{find}
use blobseer.Prelude.{ℕ, ◌+◌, ◌%◌, ◌≡◌, ◌≢◌, refl, Bool, List, [], ◌∷◌, if_cases, u64, ℕ_discrete}

-- A status that is not `ok` comes with the state and the result vector as they were.
abbrev pub Unchanged : Manager → List Buffer → ℕ → List Buffer → Manager → Type 0
Unchanged m result status r m' = status ≢ Status.ok → (m' ≡ m) × (r ≡ result)

module _ (c : Codecs) (m : Manager) (result : List Buffer) where
  same : (status : ℕ) → Unchanged m result status result m
  same status h = (refl, refl)

  succeeds : (r : List Buffer) (m' : Manager) → Unchanged m result Status.ok r m'
  succeeds r m' h = absurd (h refl)

  get_root-Ends : (params : List Buffer) → Ends (Unchanged m result) (get_root c m params result)
  unfolding get_root
  get_root-Ends (p ∷ q ∷ []) = with_value-Ends _ result m (same _) λ id.
      with_value-Ends _ result m (same _) λ version.
        with_found-Ends (find ℕ_discrete id m.objects) (ended (succeeds _ _))
          (λ o e. ended (succeeds _ _))
  get_root-Ends _ = ended (same _)

  clone-Ends : (params : List Buffer) → Ends (Unchanged m result) (clone c m params result)
  unfolding clone
  clone-Ends (p ∷ q ∷ []) = with_value-Ends _ result m (same _) λ id.
      with_value-Ends _ result m (same _) λ version.
        with_found-Ends (find ℕ_discrete id m.objects) (ended (succeeds _ _))
          (λ o e. ended (succeeds _ _))
  clone-Ends _ = ended (same _)

  create-Ends : (params : List Buffer) → Ends (Unchanged m result) (create c m params result)
  unfolding create
  create-Ends (p ∷ q ∷ []) =
      with_value-Ends _ result m (same _)
        λ ps. with_value-Ends _ result m (same _) λ rc. ended (succeeds _ _)
  create-Ends _ = ended (same _)

  publish-Ends : (params : List Buffer) → Ends (Unchanged m result) (publish c m params result)
  unfolding publish
  publish-Ends (p ∷ []) = with_value-Ends _ result m (same _) λ i.
      with_found-Ends (find ℕ_discrete i.id m.objects) (ended (same _)) λ o e.
        if_cases (Ends _) (has_version i.version o.intervals) (λ _. ended (succeeds _ _))
          (λ _. ended (same _))
  publish-Ends _ = ended (same _)

  get_objcount-Ends :
      (params : List Buffer) → Ends (Unchanged m result) (get_objcount c m params result)
  unfolding get_objcount
  get_objcount-Ends [] = ended (succeeds _ _)
  get_objcount-Ends _ = ended (same _)

  ticket_locked-Ends :
      (q : Query) (append : Bool) (o : ObjInfo)
      → Ends (Unchanged m result) (ticket_locked c m q append result o)
  unfolding ticket_locked
  ticket_locked-Ends q append o =
      let q' = adjust o q append in
      with_found-Ends (grow grow_fuel ((q'.offset + q'.size) % u64) o.max_size) hung
        (λ max e. ended (succeeds _ _))

  get_ticket-Ends :
      (params : List Buffer) → Ends (Unchanged m result) (get_ticket c m params result)
  unfolding get_ticket
  get_ticket-Ends (p ∷ q ∷ []) = with_value-Ends _ result m (same _) λ query.
      with_value-Ends _ result m (same _) λ append.
        with_found-Ends (find ℕ_discrete query.id m.objects) (ended (same _))
          (λ o e. ticket_locked-Ends query append o)
  get_ticket-Ends _ = ended (same _)

  -- A call of any of the six RPCs that returns another status than `ok` leaves the manager's state
  -- and the result vector as they were, whatever its parameters.
  pub dispatch-Unchanged :
      (r : Request) (params : List Buffer)
      → Ends (Unchanged m result) (dispatch c r m params result)
  unfolding dispatch
  dispatch-Unchanged get_root_rpc = get_root-Ends
  dispatch-Unchanged clone_rpc = clone-Ends
  dispatch-Unchanged get_ticket_rpc = get_ticket-Ends
  dispatch-Unchanged publish_rpc = publish-Ends
  dispatch-Unchanged create_rpc = create-Ends
  dispatch-Unchanged get_objcount_rpc = get_objcount-Ends
