-- ===== src/Rpc/Timers.antt =====
-- rpc/rpc_timer.hpp: the sockets with a timeout. The table is a list in the order of the times; the
-- lock does not show. A round of the watchdog gives the sockets that it closes.
use blobseer.Prelude.{
  ℕ, ◌≤◌, ◌<◌, ◌≡◌, refl, ap, Bool, true, false, List, [], ◌∷◌, ◌++◌, map, All, arith, ltb, ltb→lt,
  if◌then◌else◌, inl, inr, Bool-cases, if_cases,
}

-- `timer_entry_t`.
pub record TimerEntry (S : Type 0) : Type 0 where
  pub socket : S
  pub time : ℕ

abbrev pub TimerTable : Type 0 → Type 0
TimerTable S = List (TimerEntry S)

module _ {S : Type 0} (dec : Discrete S) where
  unfoldable pub has_timer : S → TimerTable S → Bool
  has_timer socket [] = false
  has_timer socket (e ∷ t) = elim (dec e.socket socket) [ yes h ↦ true | no h ↦ has_timer socket t ]

  -- The place by time, after the equal ones.
  unfoldable pub insert_timer : TimerEntry S → TimerTable S → TimerTable S
  insert_timer x [] = x ∷ []
  insert_timer x (e ∷ t) = if ltb x.time e.time then x ∷ e ∷ t else e ∷ insert_timer x t

  -- The index by socket is unique: a second timer of a socket is refused.
  unfoldable pub add_timer : S → ℕ → TimerTable S → TimerTable S
  add_timer socket time t =
      if has_timer socket t then t else insert_timer (record { socket = socket; time = time }) t

  abbrev pub if_its_own :
      {P : Type 0} → Dec P → TimerEntry S → TimerTable S → TimerTable S → TimerTable S
  if_its_own (yes h) e t rest = t
  if_its_own (no h) e t rest = e ∷ rest

  unfoldable pub cancel_timer : S → TimerTable S → TimerTable S
  cancel_timer socket [] = []
  cancel_timer socket (e ∷ t) = if_its_own (dec e.socket socket) e t (cancel_timer socket t)

  -- The loop of `watchdog_exec` at one time: the sockets closed, and the table after it.
  unfoldable pub watchdog_round : ℕ → TimerTable S → List S × TimerTable S
  watchdog_round now [] = ([], [])
  watchdog_round now (e ∷ t) =
      let (closed, rest) = watchdog_round now t in
      if ltb e.time now then (e.socket ∷ closed, rest) else ([], e ∷ t)

  pub data TimerOp : Type 0 where
    add : S → ℕ → TimerOp
    cancel : S → TimerOp
    round : ℕ → TimerOp
    clear : TimerOp

  unfoldable pub timer_step : TimerOp → TimerTable S → TimerTable S
  timer_step (add socket time) t = add_timer socket time t
  timer_step (cancel socket) t = cancel_timer socket t
  timer_step (round now) t = (watchdog_round now t).1
  timer_step clear t = []

  -- The table after some operations on the empty one, the latest operation first.
  unfoldable pub timers_after : List TimerOp → TimerTable S
  timers_after [] = []
  timers_after (op ∷ ops) = timer_step op (timers_after ops)

  abbrev IsOrdered : TimerTable S → Type 0
  IsOrdered [] = Unit
  IsOrdered (e ∷ t) = All (λ x. e.time ≤ x.time) t × IsOrdered t

  insert_timer-All :
      (P : TimerEntry S → Type 0) (x : TimerEntry S) (t : TimerTable S)
      → P x
      → All P t
      → All P (insert_timer x t)
  unfolding insert_timer
  insert_timer-All P x [] p all = (p, tt)
  insert_timer-All P x (e ∷ t) p all = elim (Bool-cases (ltb x.time e.time)) [
    | inl lt ↦ rw lt (p, all)
    | inr ge ↦ rw ge (all.0, insert_timer-All P x t p all.1)
  ]

  All-weaken :
      (a b : ℕ) (t : TimerTable S) → a ≤ b → All (λ x. b ≤ x.time) t → All (λ x. a ≤ x.time) t
  All-weaken a b [] le all = tt
  All-weaken a b (e ∷ t) le all = (omega (arith, le, all.0), All-weaken a b t le all.1)

  insert_timer-IsOrdered :
      (x : TimerEntry S) (t : TimerTable S) → IsOrdered t → IsOrdered (insert_timer x t)
  unfolding insert_timer
  insert_timer-IsOrdered x [] o = (tt, tt)
  insert_timer-IsOrdered x (e ∷ t) o = elim (Bool-cases (ltb x.time e.time)) [
    | inl lt ↦
        let le : x.time ≤ e.time = ground arith in
        rw lt ((le, All-weaken x.time e.time t le o.0), o)
    | inr ge ↦ rw ge (
      insert_timer-All (λ y. e.time ≤ y.time) x t (ground arith) o.0,
      insert_timer-IsOrdered x t o.1,
    )
  ]

  its_own :
      {Q : Type 0} (P : TimerTable S → Type 0) (d : Dec Q) (e : TimerEntry S)
      (t rest : TimerTable S)
      → P t
      → P (e ∷ rest)
      → P (if_its_own d e t rest)
  its_own P (yes h) e t rest p q = p
  its_own P (no h) e t rest p q = q

  cancel_timer-All :
      (P : TimerEntry S → Type 0) (socket : S) (t : TimerTable S)
      → All P t
      → All P (cancel_timer socket t)
  unfolding cancel_timer
  cancel_timer-All P socket [] all = tt
  cancel_timer-All P socket (e ∷ t) all =
      its_own (All P) (dec e.socket socket) e t (cancel_timer socket t) all.1
        (all.0, cancel_timer-All P socket t all.1)

  cancel_timer-IsOrdered :
      (socket : S) (t : TimerTable S) → IsOrdered t → IsOrdered (cancel_timer socket t)
  unfolding cancel_timer
  cancel_timer-IsOrdered socket [] o = tt
  cancel_timer-IsOrdered socket (e ∷ t) o =
      its_own IsOrdered (dec e.socket socket) e t (cancel_timer socket t) o.1
        (cancel_timer-All (λ x. e.time ≤ x.time) socket t o.0, cancel_timer-IsOrdered socket t o.1)

  -- What a round does to an ordered table.
  abbrev Expires : ℕ → TimerTable S → List S × TimerTable S → Type 0
  Expires now t (closed, rest) =
      (gone : TimerTable S) × (t ≡ gone ++ rest)
      × (closed ≡ map (λ e. e.socket) gone)
      × All (λ e. e.time < now) gone
      × All (λ e. now ≤ e.time) rest
      × IsOrdered rest

  round-Expires : (now : ℕ) (t : TimerTable S) → IsOrdered t → Expires now t (watchdog_round now t)
  unfolding watchdog_round
  round-Expires now [] o = ([], refl, refl, tt, tt, tt)
  round-Expires now (e ∷ t) o = elim (Bool-cases (ltb e.time now)) [
    | inl late ↦
        let (gone, split, same, early, left, order) = round-Expires now t o.1 in
        rw late (
          e ∷ gone,
          ap (λ l. e ∷ l) split,
          ap (λ l. e.socket ∷ l) same,
          (ltb→lt _ _ late, early),
          left,
          order,
        )
    | inr soon ↦
        let le : now ≤ e.time = ground arith in
        rw soon ([], refl, refl, tt, (le, All-weaken now e.time t le o.0), o)
  ]

  timers_after-IsOrdered : (ops : List TimerOp) → IsOrdered (timers_after ops)
  unfolding timers_after timer_step add_timer
  timers_after-IsOrdered [] = tt
  timers_after-IsOrdered (add socket time ∷ ops) =
      let o = timers_after-IsOrdered ops in
      if_cases IsOrdered (has_timer socket (timers_after ops)) (λ e. o)
        (λ e. insert_timer-IsOrdered (record { socket = socket; time = time }) (timers_after ops) o)
  timers_after-IsOrdered (cancel socket ∷ ops) =
      cancel_timer-IsOrdered socket (timers_after ops) (timers_after-IsOrdered ops)
  timers_after-IsOrdered (round now ∷ ops) =
      (round-Expires now (timers_after ops) (timers_after-IsOrdered ops)).5
  timers_after-IsOrdered (clear ∷ ops) = tt

  -- After any operations on the timers, a round of the watchdog closes the sockets of exactly the
  -- entries whose time is past, which it takes out, and keeps all others.
  pub watchdog_round_lem :
      (ops : List TimerOp) (now : ℕ)
      → let t = timers_after ops in
        (gone : TimerTable S) × (t ≡ gone ++ (watchdog_round now t).1)
        × ((watchdog_round now t).0 ≡ map (λ e. e.socket) gone)
        × All (λ e. e.time < now) gone
        × All (λ e. now ≤ e.time) (watchdog_round now t).1
  watchdog_round_lem ops now =
      let (gone, split, same, early, left, order) =
        round-Expires now (timers_after ops) (timers_after-IsOrdered ops) in
      (gone, split, same, early, left)
