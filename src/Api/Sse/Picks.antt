-- ===== src/Api/Sse/Picks.antt =====
-- Entries picked out of a stream in its order.
use incident_diag.Base.{List, [], ◌∷◌, ◌++◌}
use incident_diag.Events.{Entry}

-- The first list is the second one with some entries left out.
pub data Picks : List Entry → List Entry → Type 0 where
  nothing : Picks [] []
  takes : (m : Entry) (ms ns : List Entry) → Picks ms ns → Picks (m ∷ ms) (m ∷ ns)
  skips : (m : Entry) (ms ns : List Entry) → Picks ms ns → Picks ms (m ∷ ns)

pub Picks-append :
    {ms ns ms' ns' : List Entry} → Picks ms ns → Picks ms' ns' → Picks (ms ++ ms') (ns ++ ns')
Picks-append nothing k = k
Picks-append (takes m ms ns h) k = takes m _ _ (Picks-append h k)
Picks-append (skips m ms ns h) k = skips m _ _ (Picks-append h k)

pub Picks-all : (ms : List Entry) → Picks ms ms
Picks-all [] = nothing
Picks-all (m ∷ ms) = takes m ms ms (Picks-all ms)

pub Picks-none : (ms : List Entry) → Picks [] ms
Picks-none [] = nothing
Picks-none (m ∷ ms) = skips m [] ms (Picks-none ms)
