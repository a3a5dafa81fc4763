-- ===== src/Backend/ListBodies.antt =====
-- The requests with a list of src/backend_client.c, as what they report.
use openwrt_edge_agent.Base.{
  ℕ, ◌<◌, ◌^◌, refl, ap, true, List, [], ◌∷◌, ◌++◌, Bytes, codes, All, map,
}
use openwrt_edge_agent.Json.Reader.{move}
use openwrt_edge_agent.Json.Value.{
  JsonValue, text, integer, array, object_of, items_of, tokens_of, tokens_of_items,
}
use openwrt_edge_agent.Json.Lexer.{between, next, feed, Feeds}
use openwrt_edge_agent.Json.Pieces.{Plain}
use openwrt_edge_agent.DnsWindow.{DnsEvent}
use openwrt_edge_agent.Roster.{ClientEntry}
use openwrt_edge_agent.FxRing.{FxPacket}
use openwrt_edge_agent.Backend.{BackendConfig}
use openwrt_edge_agent.Backend.Batch.{
  dns_item, dns_head, dns_post, clients_head, clients_post, forensics_post,
}
use openwrt_edge_agent.Backend.Batches.{forensics_head, batches_closed}
use openwrt_edge_agent.Backend.Format.{literal, given, printed_int, through-Feeds}
use openwrt_edge_agent.Backend.Reports.{
  Wraps, opening, array_end, Reports, Carries-Reports, event_object, client_object, packet_objects,
  SizedPacket, All-read, event_read, clients-Spells, packets-Spells,
}

abbrev before_queries : BackendConfig → Bytes → ℕ → List (Bytes × JsonValue)
before_queries cfg timestamp window_seconds =
    (codes "deviceId", text cfg.device_id)
    ∷ (codes "timestamp", text timestamp)
    ∷ (codes "windowSeconds", integer window_seconds)
    ∷ []

abbrev before_clients : BackendConfig → Bytes → List (Bytes × JsonValue)
before_clients cfg timestamp =
    (codes "deviceId", text cfg.device_id) ∷ (codes "timestamp", text timestamp) ∷ []

abbrev before_packets : BackendConfig → List (Bytes × JsonValue)
before_packets cfg = (codes "deviceId", text cfg.device_id) ∷ []

-- an object with some members and a list
abbrev pub with_list : List (Bytes × JsonValue) → Bytes → List JsonValue → JsonValue
with_list members key values = object_of (members ++ ((key, array (items_of values)) ∷ []))

abbrev pub packets_object : BackendConfig → List JsonValue → JsonValue
packets_object cfg = with_list (before_packets cfg) (codes "packets")

module _ (cfg : BackendConfig) (timestamp : Bytes) where
  abbrev pub queries_object : ℕ → List JsonValue → JsonValue
  queries_object window_seconds =
      with_list (before_queries cfg timestamp window_seconds) (codes "queries")

  abbrev pub clients_object : List JsonValue → JsonValue
  clients_object = with_list (before_clients cfg timestamp) (codes "clients")

  module _ (id : Plain cfg.device_id) (ts : Plain timestamp) where
    dns_head_read :
        (window_seconds : ℕ)
        → Feeds between
            (dns_head cfg window_seconds timestamp)
            (opening (before_queries cfg timestamp window_seconds) (codes "queries"))
            between
    unfolding feed next move tokens_of dns_head
    dns_head_read window_seconds =
        through-Feeds
          (literal (codes "{\"deviceId\":\"")
            ∷ given cfg.device_id id
            ∷ literal (codes "\",\"timestamp\":\"")
            ∷ given timestamp ts
            ∷ literal (codes "\",\"windowSeconds\":")
            ∷ printed_int window_seconds
            ∷ literal (codes ",\"queries\":[")
            ∷ [])
          between _ between refl

    clients_head_read :
        Feeds between
          (clients_head cfg timestamp)
          (opening (before_clients cfg timestamp) (codes "clients"))
          between
    unfolding feed next move tokens_of clients_head
    clients_head_read =
        through-Feeds
          (literal (codes "{\"deviceId\":\"")
            ∷ given cfg.device_id id
            ∷ literal (codes "\",\"timestamp\":\"")
            ∷ given timestamp ts
            ∷ literal (codes "\",\"clients\":[")
            ∷ [])
          between _ between refl

forensics_head_read :
    (cfg : BackendConfig)
    → Plain cfg.device_id
    → Feeds between (forensics_head cfg) (opening (before_packets cfg) (codes "packets")) between
unfolding feed next move tokens_of
forensics_head_read cfg id =
    through-Feeds
      (literal (codes "{\"deviceId\":\"")
        ∷ given cfg.device_id id
        ∷ literal (codes "\",\"packets\":[")
        ∷ [])
      between _ between refl

queries-Wraps :
    (cfg : BackendConfig) (timestamp : Bytes) (window_seconds : ℕ)
    → Wraps
        (opening (before_queries cfg timestamp window_seconds) (codes "queries"))
        (queries_object cfg timestamp window_seconds)
unfolding tokens_of
queries-Wraps cfg timestamp window_seconds values =
    ap (λ l. opening (before_queries cfg timestamp window_seconds) (codes "queries") ++ l)
      (array_end (tokens_of_items true (items_of values)) b']' b'}')

clients-Wraps :
    (cfg : BackendConfig) (timestamp : Bytes)
    → Wraps
        (opening (before_clients cfg timestamp) (codes "clients"))
        (clients_object cfg timestamp)
unfolding tokens_of
clients-Wraps cfg timestamp values =
    ap (λ l. opening (before_clients cfg timestamp) (codes "clients") ++ l)
      (array_end (tokens_of_items true (items_of values)) b']' b'}')

packets-Wraps :
    (cfg : BackendConfig)
    → Wraps (opening (before_packets cfg) (codes "packets")) (packets_object cfg)
unfolding tokens_of
packets-Wraps cfg values =
    ap (λ l. opening (before_packets cfg) (codes "packets") ++ l)
      (array_end (tokens_of_items true (items_of values)) b']' b'}')

-- Every request with DNS queries, clients or forensic packets has a body of less than 8192 bytes that
-- is a whole text of JSON: its tokens are those of an object with the id, the time and the window that
-- belong to it, and an array of the first of the queries, of the clients, or of those packets that are
-- of TCP or UDP, each an object with its members, where the strings are what a reader of the escaped
-- ones gets. The id and the times have no quotes, backslashes or control characters, and the numbers
-- have 64 bits.
pub batches_read :
    (iso_time : ℕ → Bytes) (cfg : BackendConfig) (events : List DnsEvent)
    (clients : List ClientEntry) (packets : List FxPacket) (window_seconds : ℕ) (timestamp : Bytes)
    → ((t : ℕ) → Plain (iso_time t))
    → Plain cfg.device_id
    → Plain timestamp
    → All (λ event. event.count < 2 ^ 64) events
    → All SizedPacket packets
    → Reports
        (codes "/api/dns/queries")
        (queries_object cfg timestamp window_seconds)
        (map event_object events)
        (dns_post cfg events window_seconds timestamp)
      × Reports
          (codes "/api/clients")
          (clients_object cfg timestamp)
          (map client_object clients)
          (clients_post cfg clients timestamp)
      × Reports
          (codes "/api/forensics/packets/batch")
          (packets_object cfg)
          (packet_objects iso_time packets)
          (forensics_post iso_time cfg packets)
batches_read iso_time cfg events clients packets window_seconds timestamp times id ts counts sizes =
    let (dns, hosts, fx) =
      batches_closed iso_time cfg events clients packets window_seconds timestamp in
    (
      Carries-Reports _ _ _ _ _ _ _ (dns_head_read cfg timestamp id ts window_seconds)
          (queries-Wraps cfg timestamp window_seconds)
          (All-read (λ event. event.count < 2 ^ 64) dns_item event_object event_read events counts)
          dns,
      Carries-Reports _ _ _ _ _ _ _ (clients_head_read cfg timestamp id ts)
          (clients-Wraps cfg timestamp) (clients-Spells clients) hosts,
      Carries-Reports _ _ _ _ _ _ _ (forensics_head_read cfg id) (packets-Wraps cfg)
          (packets-Spells iso_time times packets sizes) fx,
    )
