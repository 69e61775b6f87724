-- ===== src/Cache/Writes.antt =====
-- `write` of common/cache_mt.hpp over a policy that is a queue of keys.
use blobseer.Cache.Eviction.{Policy, IsQueue, forget}
use blobseer.Cache.Keys.{
  is_some, one_if, has, Once, length-forget, find-erase, find-insert, erase_absent, length-erase,
  Unique-erase, forget_absent,
}
use blobseer.Cache.Valid.{IsValid, HasRoom, order, order-stored, stored-IsValid}
use blobseer.Cache.{Cache, Calls, callback, stored, write}
use blobseer.Prelude.Map.{find, erase}
use blobseer.Prelude.{
  ℕ, ◌<◌, ◌≡◌, refl, sym, ap, subst, ◌∙◌, ◌≢◌, inl, inr, ite, if_pos, if_neg, Bool, true, false,
  Option, none, some, List, [], ◌∷◌, ◌++◌, length, Option-cases, Bool-cases, arith, ◌==◌,
}

module _ {K V : Type 0} (dec : Discrete K) (p : Policy K) (q : IsQueue dec p) where
  -- What a write that succeeded has done to the cache `c`.
  pub data Wrote (k : K) (v : V) (d : Bool) (c c' : Cache K V p) (calls : Calls K V) : Type 0 where
    -- There was a slot: only the entry of `k` is new.
    fits :
        order dec p q c' ≡ forget dec k (order dec p q c) ++ k ∷ []
        → ((j : K) → find dec j c'.map ≡ ite (dec j k) (some (v, d)) (find dec j c.map))
        → calls ≡ []
        → Wrote k v d c c' calls
    -- The cache was full of other keys: the front of the queue lost its entry.
    evicts :
        (e : K) (x : V × Bool) (rest : List K)
        → length c.map ≡ c.m_size
        → find dec k c.map ≡ none
        → order dec p q c ≡ e ∷ rest
        → find dec e c.map ≡ some x
        → order dec p q c' ≡ rest ++ k ∷ []
        → ((j : K)
            → find dec j c'.map
              ≡ ite (dec j k) (some (v, d)) (ite (dec j e) none (find dec j c.map)))
        → calls ≡ callback e x
        → Wrote k v d c c' calls

  module _ (k : K) (c : Cache K V p) (v : IsValid dec p q c) where
    -- Without the entry of `k` there is room, unless the cache is full of others.
    erased :
        length (erase dec k c.map) ≢ c.m_size
        → HasRoom dec p q k (record c { map = erase dec k c.map })
    erased ne = record {
      inv = v.inv;
      once = v.once;
      unique = Unique-erase dec k c.map v.unique;
      absent = find-erase dec k k c.map ∙ if_pos (dec k k) refl _ _;
      keys = λ j other.
          v.keys j ∙ sym (ap is_some (find-erase dec j k c.map ∙ if_neg (dec j k) other _ _));
      sizes = omega (
        arith,
        length-forget dec k (order dec p q c) v.once,
        length-erase dec k c.map v.unique,
        ap one_if (v.keys k),
        v.sizes,
      );
      room = omega (arith, length-erase dec k c.map v.unique, v.bounded, ne);
    }

    full_absent : length (erase dec k c.map) ≡ c.m_size → find dec k c.map ≡ none
    full_absent e = elim (Option-cases (find dec k c.map)) [
      | inl n ↦ n
      | inr (x, f) ↦
          absurd (omega (arith, length-erase dec k c.map v.unique, ap count f, v.bounded, e))
    ]
      where
        count : Option (V × Bool) → ℕ
        count o = one_if (is_some o)

    -- The entry that the front of the queue has.
    front_entry :
        (e : K) (rest : List K)
        → order dec p q c ≡ e ∷ rest
        → (x : V × Bool) × (find dec e c.map ≡ some x)
    unfolding has
    front_entry e rest o = elim (Option-cases (find dec e c.map)) [
      | inl z ↦
          let absent : has dec e (e ∷ rest) ≡ false =
            ap (has dec e) (sym o) ∙ v.keys e ∙ ap is_some z in
          absurd (ground arith)
      | inr x ↦ x
    ]

    missing :
        (e : K) (rest : List K)
        → find dec k c.map ≡ none
        → order dec p q c ≡ e ∷ rest
        → has dec k rest ≡ false
    unfolding has
    missing e rest absent o =
        let front : has dec k (e ∷ rest) ≡ is_some (find dec k c.map) =
          ap (has dec k) (sym o) ∙ v.keys k in
        ground arith

    -- With the front of the queue gone there is room for a new key.
    evicted :
        (e : K) (rest : List K) (s : p.State)
        → find dec k c.map ≡ none
        → order dec p q c ≡ e ∷ rest
        → q.Inv s
        → q.order s ≡ rest
        → HasRoom dec p q k (record c { policy = s; map = erase dec e c.map })
    unfolding has
    evicted e rest s absent o i os =
        let (x, fx) = front_entry e rest o in
        let fresh : Once dec (e ∷ rest) = subst (Once dec) o v.once in
        let front : (j : K) → has dec j (e ∷ rest) ≡ is_some (find dec j c.map) =
          λ j. ap (has dec j) (sym o) ∙ v.keys j in
        let gone : (j : K)
            → find dec j (erase dec e c.map) ≡ ite (dec j e) none (find dec j c.map) =
          λ j. find-erase dec j e c.map in
        record {
          inv = i;
          once = rw os fresh.1;
          unique = Unique-erase dec e c.map v.unique;
          absent = ground (arith, gone k);
          keys = λ j other. rw os (ground (arith, gone j, front j, fresh.0));
          sizes =
              rw (os, forget_absent dec k rest (missing e rest absent o))
                (omega (
                  arith,
                  length-erase dec e c.map v.unique,
                  ap (λ (t : Option (V × Bool)). one_if (is_some t)) fx,
                  ap length o,
                  v.sizes,
                ));
          room = omega (
            arith,
            length-erase dec e c.map v.unique,
            ap (λ (t : Option (V × Bool)). one_if (is_some t)) fx,
            v.bounded,
          );
        }

    -- A write that succeeds.
    abbrev Succeeds : V → V → Bool → Type 0
    Succeeds value w d =
        (c' : Cache K V p) × (calls : Calls K V) × (write dec p value k w d c ≡ (true, c', calls))
        × IsValid dec p q c'
        × Wrote k w d c c' calls

    write_fits :
        (value w : V) (d : Bool)
        → length (erase dec k c.map) == c.m_size ≡ false
        → Succeeds value w d
    unfolding write
    write_fits value w d ne =
        let c₁ : Cache K V p = record c { map = erase dec k c.map } in
        let r = erased (λ e. absurd (ground arith)) in
        (
          stored dec p k w d c₁,
          [],
          rw ne refl,
          stored-IsValid dec p q k w d c₁ r,
          fits (order-stored dec p q k w d c₁ r)
              (λ j.
                ground
                  (arith, find-insert dec j k (w, d) c₁.map r.absent, find-erase dec j k c.map))
              refl,
        )

    write_evicts :
        (value w : V) (d : Bool) (ks : List K)
        → 0 < c.m_size
        → length c.map ≡ c.m_size
        → find dec k c.map ≡ none
        → order dec p q c ≡ ks
        → Succeeds value w d
    unfolding write
    write_evicts value w d [] pos full absent o = absurd (omega (arith, ap length o, v.sizes))
    write_evicts value w d (e ∷ rest) pos full absent o =
        let (s, ev, i, os) = q.evict_front c.policy e rest v.inv o in
        let (x, fx) = front_entry e rest o in
        let c₁ : Cache K V p = record c { policy = s; map = erase dec e c.map } in
        let r = evicted e rest s absent o i os in
        let size : (length c.map == c.m_size) ≡ true = ground arith in
        (
          stored dec p k w d c₁,
          callback e x,
          rw (erase_absent dec k c.map absent, size, ev, erase_absent dec k c.map absent, fx) refl,
          stored-IsValid dec p q k w d c₁ r,
          evicts e x rest full absent o fx
              (order-stored dec p q k w d c₁ r
                ∙ ap (λ t. forget dec k t ++ k ∷ []) os
                ∙ ap (λ t. t ++ k ∷ []) (forget_absent dec k rest (missing e rest absent o)))
              (λ j.
                ground
                  (arith, find-insert dec j k (w, d) c₁.map r.absent, find-erase dec j e c.map))
              refl,
        )

    -- A write to a valid cache with slots succeeds, keeps the cache valid, and either finds a slot
    -- free, or evicts the least recently used key, with one callback if its entry is dirty. Every
    -- other entry stays.
    pub write_lem : (value w : V) (d : Bool) → 0 < c.m_size → Succeeds value w d
    write_lem value w d pos = elim (Bool-cases (length (erase dec k c.map) == c.m_size)) [
      | inl e ↦
          let full : length (erase dec k c.map) ≡ c.m_size = ground arith in
          let absent = full_absent full in
          write_evicts value w d (order dec p q c) pos
            (ap length (sym (erase_absent dec k c.map absent)) ∙ full) absent refl
      | inr ne ↦ write_fits value w d ne
    ]
