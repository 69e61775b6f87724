-- ===== src/PManager/Requests.antt =====
-- `get` of pmanager/adv_manager.cpp as an RPC.
use blobseer.PManager.Allocation.{Allocation, groups_lem}
use blobseer.PManager.Choice.{pick_hidden}
use blobseer.PManager.Table.{Entry, Index}
use blobseer.PManager.{Codecs, provider_discrete, group, groups, allocate, get_fuel, rounds_of, get}
use blobseer.Rpc.{Buffer, diverges, returns, with_value, with_found, get_value-encode}
use blobseer.Rpc.Status
use blobseer.Structures.{Provider}
use blobseer.Prelude.{
  ℕ, zero, suc, ◌^◌, false, ◌≤◌, ◌<◌, ◌≡◌, refl, ap, ◌⊎◌, none, some, List, [], ◌∷◌, ◌++◌, length,
  arith, ◌==◌, if◌then◌else◌, last_n, true, ltb,
}

-- A well-formed request for some providers, in groups of at least one and fewer than 2^31 replicas,
-- always returns. The list it has put together is made of groups, all but the last full, of
-- different providers that had free space; the scores in the table are raised once for each
-- allocation, and nothing else in it changes. The answer is the list if it has the length that was
-- asked for; if not the status is `eres`, but the scores stay raised.
pub get_lem :
    (x : Index provider_discrete) (c : Codecs) (t : x.Table) (wanted replica_no : ℕ)
    (result : List Buffer)
    → x.Inv t
    → 0 < wanted
    → 0 < replica_no
    → replica_no < 2 ^ 31
    → (t' : x.Table) × (taken : List Provider) × Allocation x t wanted replica_no t' taken
      × (get x c t (c.word32.encode wanted ∷ c.word32.encode replica_no ∷ []) result ≡ (
          if length taken == wanted
          then returns Status.ok (result ++ c.replica_list.encode taken ∷ []) t'
          else returns Status.eres result t'))
unfolding get with_value with_found
get_lem x c t wanted replica_no result v pos one small =
    let rounds : rounds_of x replica_no ≡ replica_no = ground arith in
    let (t', taken, ends, a) = groups_lem x t wanted replica_no one v in
    let some_wanted : (wanted == 0) ≡ false = ground arith in
    (
      t',
      taken,
      a,
      rw
          (
            get_value-encode c.word32 wanted,
            get_value-encode c.word32 replica_no,
            some_wanted,
            rounds,
            ends,
          )
          refl,
    )

never_ends :
    (x : Index provider_discrete) (fuel wanted : ℕ) (t : x.Table)
    → 0 < wanted
    → groups x fuel wanted 0 t [] ≡ none
unfolding groups group
never_ends x zero wanted t pos = refl
never_ends x (suc fuel) wanted t pos = ground (arith, never_ends x fuel wanted t pos)

-- A request for some providers with no replica to a page, or with 2^31 or more of them, which the
-- cast to `int` makes negative, never ends: no number of rounds of the outer loop is enough.
pub get_no_replicas :
    (x : Index provider_discrete) (c : Codecs) (t : x.Table) (wanted replica_no : ℕ)
    (result : List Buffer)
    → 0 < wanted
    → (replica_no ≡ 0) ⊎ (2 ^ 31 ≤ replica_no)
    → (get x c t (c.word32.encode wanted ∷ c.word32.encode replica_no ∷ []) result ≡ diverges)
      × ((fuel : ℕ) → groups x fuel wanted (rounds_of x replica_no) t [] ≡ none)
unfolding get with_value with_found
get_no_replicas x c t wanted replica_no result pos bad =
    let rounds : rounds_of x replica_no ≡ 0 = ground arith in
    let some_wanted : (wanted == 0) ≡ false = ground arith in
    (
      rw
          (
            get_value-encode c.word32 wanted,
            get_value-encode c.word32 replica_no,
            some_wanted,
            rounds,
            never_ends x (get_fuel x wanted) wanted t pos,
          )
          refl,
      λ fuel. rw rounds (never_ends x fuel wanted t pos),
    )

module _ (x : Index provider_discrete) (t : x.Table) (full : Entry) (es : List Entry) where
  group_hidden :
      (n : ℕ)
      → x.by_info t ≡ full ∷ es
      → full.info.free ≡ 0
      → 0 < n
      → group x n 0 t [] ≡ (false, t, [])
  unfolding group allocate
  group_hidden zero first z pos = absurd (omega arith)
  group_hidden (suc n) first z pos = rw (first, pick_hidden (last_n 0 []) full es z, group) refl

  groups_hidden :
      (wanted n : ℕ)
      → x.by_info t ≡ full ∷ es
      → full.info.free ≡ 0
      → 0 < wanted
      → 0 < n
      → groups x (get_fuel x wanted) wanted n t [] ≡ some (t, [])
  unfolding groups
  groups_hidden wanted n first z pos one =
      let more : ltb (length {A = Provider} []) wanted ≡ true = ground arith in
      let g = group_hidden n first z one in rw (more, ap (λ r. r.0) g) (ap (λ r. some (r.1, r.2)) g)

  -- Where the first provider by score is full, a well-formed request for some providers, in groups
  -- of at least one and fewer than 2^31 replicas, is refused with `eres`, whatever free space the
  -- providers after it have; the table stays as it was.
  pub get_hidden :
      (c : Codecs) (wanted replica_no : ℕ) (result : List Buffer)
      → x.by_info t ≡ full ∷ es
      → full.info.free ≡ 0
      → 0 < wanted
      → 0 < replica_no
      → replica_no < 2 ^ 31
      → get x c t (c.word32.encode wanted ∷ c.word32.encode replica_no ∷ []) result
        ≡ returns Status.eres result t
  unfolding get with_value with_found
  get_hidden c wanted replica_no result first z pos one small =
      let rounds : rounds_of x replica_no ≡ replica_no = ground arith in
      let some_wanted : (wanted == 0) ≡ false = ground arith in
      let none_taken : (length {A = Provider} [] == wanted) ≡ false = ground arith in
      rw
        (
          get_value-encode c.word32 wanted,
          get_value-encode c.word32 replica_no,
          some_wanted,
          rounds,
          groups_hidden wanted replica_no first z pos one,
          none_taken,
        )
        refl
