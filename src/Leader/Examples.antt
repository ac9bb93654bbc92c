-- ===== src/Leader/Examples.antt =====
-- Two nodes and a room, and the theorems applied there.
use syncstudies.Base.{refl, true, false, some}
use syncstudies.Base.Int.{pos}
use syncstudies.Leader.{Lease, Store, LeaderElection}
use syncstudies.Leader.Foreign.{IsForeign}

abbrev lease_of_b : Lease
lease_of_b = record { owner = "b"; expires_at = pos 20_000 }

abbrev store : Store
store = record { leases = λ room. some lease_of_b; redis_up = true }

-- Node a stalled past its lease and still thinks that it leads.
abbrev node_a : LeaderElection
node_a = record { node_id = "a"; tracked = λ room. true; held = λ room. true; stopping = false }

foreign : IsForeign (store.leases "r") "a" (pos 9_000) lease_of_b
foreign = record { there = refl; fresh = refl; other = refl }
