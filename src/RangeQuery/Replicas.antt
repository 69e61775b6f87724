-- ===== src/RangeQuery/Replicas.antt =====
-- client/replica_policy.hpp: the replicas of a page that a reader has not tried yet. The random
-- number of each choice is an argument.
use blobseer.Rpc.{Buffer, Codec, Got, good, get_value}
use blobseer.Structures.{Provider, Query, null_query, null_provider}
use blobseer.Prelude.{ℕ, ◌%◌, Bool, true, false, List, [], ◌∷◌, length, get_or, erase_at}

-- `random_select`.
pub record RandomSelect : Type 0 where
  pub providers : List Provider
  pub page_key : Query

abbrev pub null_select : RandomSelect
null_select = record { providers = []; page_key = null_query }

abbrev pub of_list : Query → RandomSelect → Got (List Provider) → Bool × RandomSelect
of_list key s (good l) = (true, record { providers = l; page_key = key })
of_list key s _ = (false, record s { page_key = key })

unfoldable pub set_providers :
    Codec (List Provider) → Query → Buffer → RandomSelect → Bool × RandomSelect
set_providers c key [] s = (false, record s { page_key = key })
set_providers c key (x ∷ b) s = of_list key s (get_value c (x ∷ b))

-- `try_next`: the chosen provider leaves the list; the empty descriptor when none is left.
abbrev pub try_next : ℕ → RandomSelect → Provider × RandomSelect
try_next r s = elim s.providers [
  | [] ↦ (null_provider, s)
  | p ∷ ps ↦
      let i = r % length (p ∷ ps) in
      (get_or (p ∷ ps) i null_provider, record s { providers = erase_at i (p ∷ ps) })
]
