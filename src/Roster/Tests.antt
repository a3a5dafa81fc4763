-- ===== src/Roster/Tests.antt =====
-- A client at 10.0.0.2 in the table of src/client_roster.c.
use openwrt_edge_agent.Base.{◌≡◌, refl, true, [], ◌∷◌, arith, Bytes, List, map, take, none, some}
use openwrt_edge_agent.Roster.{is_private_ip, is_online, Lease, collect}
use openwrt_edge_agent.Roster.Leases.{client_at, leases_in, collect-leases_in}
use openwrt_edge_agent.Roster.Lookup.{lately}
use openwrt_edge_agent.Roster.History.{Sighting, table_after, last_of, online-last_of}

abbrev client : Bytes
client = 49 ∷ 48 ∷ 46 ∷ 48 ∷ 46 ∷ 48 ∷ 46 ∷ 50 ∷ []

client_private : is_private_ip client ≡ true
unfolding is_private_ip
client_private = refl

abbrev neighbour : Bytes
neighbour = 49 ∷ 48 ∷ 46 ∷ 48 ∷ 46 ∷ 48 ∷ 46 ∷ 51 ∷ []

abbrev history : List Sighting
history =
    record { ip = neighbour; time = 130 }
    ∷ record { ip = client; time = 100 }
    ∷ record { ip = neighbour; time = 90 }
    ∷ []

online-last_of_example :
    is_online (table_after history) client 155 ≡ lately (last_of history client) 155
unfolding is_private_ip
online-last_of_example =
    online-last_of history client 155 (omega arith, (omega arith, (omega arith, tt))) (omega arith)
      (omega arith) (omega arith) client_private

abbrev lease : Lease
lease = record { mac = 97 ∷ 58 ∷ 98 ∷ []; ip = client; hostname = 42 ∷ [] }

collect-leases_in_example :
    collect (none ∷ some lease ∷ []) (table_after history) 155
    ≡ map (client_at (table_after history) 155) (take 64 (leases_in (none ∷ some lease ∷ [])))
collect-leases_in_example = collect-leases_in (none ∷ some lease ∷ []) (table_after history) 155
