-- ===== src/Dht/Puts.antt =====
-- The answers to the replicas of one put (common/simple_dht.hpp).
use mathlib.Core.List.{append-nil, append_assoc}
use blobseer.Dht.{
  Dht, PendingPut, Call, put_done, count_answer, verdict, set_status, told, handle_put_callback,
}
use blobseer.Rpc.Status
use blobseer.Prelude.{
  ℕ, zero, suc, ◌+◌, ◌*◌, ◌/◌, ◌^◌, ◌≤◌, ◌<◌, ◌≡◌, refl, sym, ap, ◌∙◌, map, get_or, Option-cases,
  Bool, false, ◌||◌, none, some, List, [], ◌∷◌, ◌++◌, length, ltb, ◌==◌, if◌then◌else◌, arith,
  Bool-cases, inl, inr,
}

-- What the client is told over a sequence of answers, from a status on.
unfoldable pub verdicts : ℕ → ℕ → List ℕ → List ℕ
verdicts replication status [] = []
verdicts replication status (error ∷ errors) =
    let rest = verdicts replication (count_answer error status) errors in
    elim (verdict replication (count_answer error status)) [ none ↦ rest | some code ↦ code ∷ rest ]

-- Whether some answer is good.
unfoldable pub any_ok : List ℕ → Bool
any_ok [] = false
any_ok (error ∷ errors) = error == Status.ok || any_ok errors

-- An answer after which more are to come is told to nobody.
quiet :
    (replication status error : ℕ) (errors : List ℕ)
    → verdict replication (count_answer error status) ≡ none
    → verdicts replication status (error ∷ errors)
      ≡ verdicts replication (count_answer error status) errors
unfolding verdicts
quiet replication status error errors h = rw (h, verdicts) refl

later :
    (replication seen good status error : ℕ) (errors : List ℕ)
    → count_answer error status ≡ suc seen * 2 ^ 16 + good
    → suc seen < replication
    → good < 2 ^ 16
    → verdicts replication status (error ∷ errors)
      ≡ verdicts replication (suc seen * 2 ^ 16 + good) errors
later replication seen good status error errors next more small =
    let early : ((suc seen * 2 ^ 16 + good) / 2 ^ 16 == replication) ≡ false =
      ground (arith, more, small) in
    let none_yet : verdict replication (suc seen * 2 ^ 16 + good) ≡ none =
      unfold verdict in rw early refl in
    quiet replication status error errors (ap (verdict replication) next ∙ none_yet)
    ∙ ap (λ t. verdicts replication t errors) next

from_status :
    (replication good seen : ℕ) (errors : List ℕ)
    → 0 < length errors
    → seen + length errors ≡ replication
    → good ≤ seen
    → replication < 2 ^ 16
    → verdicts replication (seen * 2 ^ 16 + good) errors
      ≡ (if ltb 0 good || any_ok errors then Status.ok else Status.eobj) ∷ []
unfolding verdicts count_answer verdict any_ok
from_status replication good seen [] pos all le small = absurd (omega arith)
from_status replication good seen (error ∷ []) pos all le small = ground arith
from_status replication good seen (error ∷ e ∷ errors) pos all le small =
    elim (Bool-cases (error == Status.ok)) [
      | inl fine ↦
          let next : count_answer error (seen * 2 ^ 16 + good) ≡ suc seen * 2 ^ 16 + suc good =
            unfold count_answer in rw fine (omega (arith, all, le, small)) in
          later replication seen (suc good) (seen * 2 ^ 16 + good) error (e ∷ errors) next
            (omega (arith, all)) (omega (arith, le, all, small))
          ∙ from_status replication (suc good) (suc seen) (e ∷ errors) (omega arith)
              (omega (arith, all)) (omega (arith, le)) small
          ∙ ground (arith, fine)
      | inr bad ↦
          let next : count_answer error (seen * 2 ^ 16 + good) ≡ suc seen * 2 ^ 16 + good =
            unfold count_answer in rw bad (omega (arith, all, le, small)) in
          later replication seen good (seen * 2 ^ 16 + good) error (e ∷ errors) next
            (omega (arith, all)) (omega (arith, le, all, small))
          ∙ from_status replication good (suc seen) (e ∷ errors) (omega arith) (omega (arith, all))
              (omega (arith, le)) small
          ∙ ground (arith, bad)
    ]

module _ {C : Type 0} (p : PendingPut C) where
  -- The answers to the replicas of one put, in the order in which they come.
  unfoldable pub put_answers : List ℕ → Dht C → Dht C
  put_answers [] d = d
  put_answers (error ∷ errors) d = put_answers errors (handle_put_callback p error d)

  stored_status :
      (i v : ℕ) (xs : List ℕ)
      → i < length xs
      → (get_or (set_status i v xs) i 0 ≡ v) × (length (set_status i v xs) ≡ length xs)
  stored_status i v [] h = absurd (omega arith)
  stored_status zero v (x ∷ xs) h = (refl, refl)
  stored_status (suc i) v (x ∷ xs) h =
      let (e, l) = stored_status i v xs (omega arith) in (e, omega (arith, l))

  told-verdicts :
      (replication status error : ℕ) (errors : List ℕ) (calls : List (Call C))
      → (calls ++ told p.put_callback (verdict replication (count_answer error status)))
          ++ map (put_done p.put_callback) (verdicts replication (count_answer error status) errors)
        ≡ calls ++ map (put_done p.put_callback) (verdicts replication status (error ∷ errors))
  unfolding verdicts
  told-verdicts replication status error errors calls =
      elim (Option-cases (verdict replication (count_answer error status))) [
        | inl e ↦ rw (e, verdicts, append-nil calls) refl
        | inr (code, e) ↦
            rw (e, verdicts) (append_assoc calls (put_done p.put_callback code ∷ []) _)
      ]

  put_answers-verdicts :
      (errors : List ℕ) (d : Dht C) (status : ℕ)
      → p.status < length d.statuses
      → get_or d.statuses p.status 0 ≡ status
      → (put_answers errors d).calls
        ≡ d.calls ++ map (put_done p.put_callback) (verdicts d.replication status errors)
  unfolding put_answers handle_put_callback verdicts
  put_answers-verdicts [] d status lt e = sym (append-nil d.calls)
  put_answers-verdicts (error ∷ errors) d status lt e =
      let next = count_answer error (get_or d.statuses p.status 0) in
      let (kept, same) = stored_status p.status next d.statuses lt in
      put_answers-verdicts errors (handle_put_callback p error d) next (omega (arith, lt, same))
        kept
      ∙ told-verdicts d.replication (get_or d.statuses p.status 0) error errors d.calls
      ∙ ap
          (λ t.
            d.calls ++ map (put_done p.put_callback) (verdicts d.replication t (error ∷ errors)))
          e

  -- The client of a put to between 1 and 2^16 - 1 replicas, whose status cell is 0, is told once the
  -- answers of all replicas are in, and only once: `ok` if some answer was good, `eobj` if none was.
  pub put_answers_lem :
      (errors : List ℕ) (d : Dht C)
      → p.status < length d.statuses
      → get_or d.statuses p.status 0 ≡ 0
      → 0 < d.replication
      → d.replication < 2 ^ 16
      → length errors ≡ d.replication
      → (put_answers errors d).calls
        ≡ d.calls ++ put_done p.put_callback (if any_ok errors then Status.ok else Status.eobj) ∷ []
  put_answers_lem errors d lt zeroed pos small all =
      put_answers-verdicts errors d 0 lt zeroed
      ∙ ap (λ t. d.calls ++ map (put_done p.put_callback) t)
          (from_status d.replication 0 0 errors (omega (arith, pos, all)) (omega (arith, all))
            (omega arith) small)
