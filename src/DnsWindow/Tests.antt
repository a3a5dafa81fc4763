-- ===== src/DnsWindow/Tests.antt =====
-- Queries of two clients through the window of src/dns_window.c.
use openwrt_edge_agent.Base.{◌%◌, ◌^◌, ◌≡◌, refl, List, [], ◌∷◌, arith}
use openwrt_edge_agent.DnsWindow.{init, add, event_matches, new_event}
use openwrt_edge_agent.DnsWindow.Tally.{Query, add_all, count_of_query, occurrences, dns_tally}

abbrev first_query : Query
first_query = (49 ∷ 46 ∷ 50 ∷ [], 97 ∷ 46 ∷ 98 ∷ [])

abbrev second_query : Query
second_query = (49 ∷ 46 ∷ 51 ∷ [], 97 ∷ 46 ∷ 98 ∷ [])

abbrev queries : List Query
queries = first_query ∷ second_query ∷ first_query ∷ []

dns_tally_example :
    count_of_query first_query (add_all init queries).events
    ≡ occurrences first_query queries % 2 ^ 32
unfolding add_all add init event_matches new_event
dns_tally_example =
    dns_tally first_query queries (omega arith, omega arith)
      ((omega arith, omega arith), ((omega arith, omega arith), ((omega arith, omega arith), tt)))
      refl
