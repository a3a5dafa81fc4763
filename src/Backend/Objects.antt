-- ===== src/Backend/Objects.antt =====
-- The bodies of one buffer of src/backend_client.c as texts of JSON.
use openwrt_edge_agent.Base.{
  ℕ, ◌<◌, ◌^◌, ◌≡◌, refl, ap, ◌∙◌, false, Option, none, some, List, [], ◌∷◌, ◌++◌, append_assoc,
  arith, ◌==◌, Bytes, codes, length, All, map,
}
use openwrt_edge_agent.Json.Reader.{move}
use openwrt_edge_agent.Json.Value.{JsonValue, text, number, integer, object_of, tokens_of}
use openwrt_edge_agent.Json.Lexer.{next, feed, tokens}
use openwrt_edge_agent.Json.Pieces.{Plain, heard}
use openwrt_edge_agent.Stats.{TrafficStats}
use openwrt_edge_agent.Detector.{AnomalyAlert}
use openwrt_edge_agent.Backend.{BackendConfig, concat}
use openwrt_edge_agent.Backend.Register.{known_id, register_parts}
use openwrt_edge_agent.Backend.Bodies.{heartbeat_parts, traffic_parts, Endpoints, alert_parts}
use openwrt_edge_agent.Backend.Format.{
  Piece, literal, given, printed, printed_int, escaped_into, written, format_tokens,
}

-- The numbers that a body has fit 64 bits.
abbrev pub Sized : List ℕ → Type 0
Sized = All (λ n. n < 2 ^ 64)

abbrev pub given_of : Option ℕ → List ℕ
given_of none = []
given_of (some n) = n ∷ []

abbrev pub heartbeat_object : Bytes → Option ℕ → Option ℕ → JsonValue
heartbeat_object timestamp (some cpu) (some mem) = object_of (
    (codes "seenAt", text timestamp)
    ∷ (codes "cpuPercent", number cpu)
    ∷ (codes "memPercent", number mem)
    ∷ [])
heartbeat_object timestamp cpu mem = object_of ((codes "seenAt", text timestamp) ∷ [])

pub heartbeat_tokens :
    (timestamp : Bytes) (cpu mem : Option ℕ)
    → Plain timestamp
    → Sized (given_of cpu ++ given_of mem)
    → tokens (concat (heartbeat_parts timestamp cpu mem))
      ≡ some (tokens_of (heartbeat_object timestamp cpu mem))
unfolding feed next move tokens_of heartbeat_parts
heartbeat_tokens timestamp none mem ts h =
    format_tokens
      (literal (codes "{\"seenAt\":\"") ∷ given timestamp ts ∷ literal (codes "\"}") ∷ []) _ refl
heartbeat_tokens timestamp (some cpu) none ts h =
    format_tokens
      (literal (codes "{\"seenAt\":\"") ∷ given timestamp ts ∷ literal (codes "\"}") ∷ []) _ refl
heartbeat_tokens timestamp (some cpu) (some mem) ts h =
    format_tokens
      (literal (codes "{\"seenAt\":\"")
        ∷ given timestamp ts
        ∷ literal (codes "\",\"cpuPercent\":")
        ∷ printed cpu h.0
        ∷ literal (codes ",\"memPercent\":")
        ∷ printed mem h.1.0
        ∷ literal (codes "}")
        ∷ [])
      _ refl

abbrev pub traffic_numbers : TrafficStats → List ℕ
traffic_numbers stats =
    stats.total_packets ∷ stats.tcp_packets ∷ stats.udp_packets ∷ stats.total_bytes
    ∷ stats.tcp_bytes ∷ stats.udp_bytes ∷ []

abbrev pub alert_numbers : AnomalyAlert → Endpoints → List ℕ
alert_numbers alert ends =
    ends.src_port ∷ ends.dst_port ∷ alert.packet_count ∷ alert.bytes_count ∷ []

module _ (cfg : BackendConfig) (window_seconds : ℕ) (timestamp : Bytes) where
  abbrev pub traffic_object : TrafficStats → JsonValue
  traffic_object stats = object_of (
      (codes "deviceId", text cfg.device_id)
      ∷ (codes "timestamp", text timestamp)
      ∷ (codes "totalPackets", number stats.total_packets)
      ∷ (codes "tcpPackets", number stats.tcp_packets)
      ∷ (codes "udpPackets", number stats.udp_packets)
      ∷ (codes "totalBytes", number stats.total_bytes)
      ∷ (codes "tcpBytes", number stats.tcp_bytes)
      ∷ (codes "udpBytes", number stats.udp_bytes)
      ∷ (codes "windowSeconds", integer window_seconds)
      ∷ [])

  -- the description is the one that is read, of the escaped one
  abbrev pub alert_object : AnomalyAlert → Endpoints → JsonValue
  alert_object alert ends = object_of (
      (codes "deviceId", text cfg.device_id)
      ∷ (codes "timestamp", text timestamp)
      ∷ (codes "type", text alert.type)
      ∷ (codes "severity", text alert.severity)
      ∷ (codes "protocol", text alert.protocol)
      ∷ (codes "sourceIp", text ends.src_ip)
      ∷ (codes "destinationIp", text ends.dst_ip)
      ∷ (codes "sourcePort", number ends.src_port)
      ∷ (codes "destinationPort", number ends.dst_port)
      ∷ (codes "packetCount", number alert.packet_count)
      ∷ (codes "bytesCount", number alert.bytes_count)
      ∷ (codes "windowSeconds", integer window_seconds)
      ∷ (codes "description", text (heard 256 alert.description))
      ∷ [])

  module _ (id : Plain cfg.device_id) (ts : Plain timestamp) where
    pub traffic_tokens :
        (stats : TrafficStats)
        → Sized (traffic_numbers stats)
        → tokens (concat (traffic_parts cfg stats window_seconds timestamp))
          ≡ some (tokens_of (traffic_object stats))
    unfolding feed next move tokens_of traffic_parts
    traffic_tokens stats h =
        format_tokens
          (literal (codes "{\"deviceId\":\"")
            ∷ given cfg.device_id id
            ∷ literal (codes "\",\"timestamp\":\"")
            ∷ given timestamp ts
            ∷ literal (codes "\",\"totalPackets\":")
            ∷ printed stats.total_packets h.0
            ∷ literal (codes ",\"tcpPackets\":")
            ∷ printed stats.tcp_packets h.1.0
            ∷ literal (codes ",\"udpPackets\":")
            ∷ printed stats.udp_packets h.1.1.0
            ∷ literal (codes ",\"totalBytes\":")
            ∷ printed stats.total_bytes h.1.1.1.0
            ∷ literal (codes ",\"tcpBytes\":")
            ∷ printed stats.tcp_bytes h.1.1.1.1.0
            ∷ literal (codes ",\"udpBytes\":")
            ∷ printed stats.udp_bytes h.1.1.1.1.1.0
            ∷ literal (codes ",\"windowSeconds\":")
            ∷ printed_int window_seconds
            ∷ literal (codes "}")
            ∷ [])
          _ refl

    pub alert_tokens :
        (alert : AnomalyAlert) (ends : Endpoints)
        → Plain alert.type
        → Plain alert.severity
        → Plain alert.protocol
        → Plain ends.src_ip
        → Plain ends.dst_ip
        → Sized (alert_numbers alert ends)
        → tokens (concat (alert_parts cfg alert ends window_seconds timestamp))
          ≡ some (tokens_of (alert_object alert ends))
    unfolding feed next move tokens_of alert_parts
    alert_tokens alert ends type severity protocol src dst h =
        format_tokens
          (literal (codes "{\"deviceId\":\"")
            ∷ given cfg.device_id id
            ∷ literal (codes "\",\"timestamp\":\"")
            ∷ given timestamp ts
            ∷ literal (codes "\",\"type\":\"")
            ∷ given alert.type type
            ∷ literal (codes "\",\"severity\":\"")
            ∷ given alert.severity severity
            ∷ literal (codes "\",\"protocol\":\"")
            ∷ given alert.protocol protocol
            ∷ literal (codes "\",\"sourceIp\":\"")
            ∷ given ends.src_ip src
            ∷ literal (codes "\",\"destinationIp\":\"")
            ∷ given ends.dst_ip dst
            ∷ literal (codes "\",\"sourcePort\":")
            ∷ printed ends.src_port h.0
            ∷ literal (codes ",\"destinationPort\":")
            ∷ printed ends.dst_port h.1.0
            ∷ literal (codes ",\"packetCount\":")
            ∷ printed alert.packet_count h.1.1.0
            ∷ literal (codes ",\"bytesCount\":")
            ∷ printed alert.bytes_count h.1.1.1.0
            ∷ literal (codes ",\"windowSeconds\":")
            ∷ printed_int window_seconds
            ∷ literal (codes ",\"description\":\"")
            ∷ escaped_into 256 (omega arith) alert.description
            ∷ literal (codes "\"}")
            ∷ [])
          _ refl

-- the member for a device id that is known
abbrev pub known_member : Bytes → List (Bytes × JsonValue)
known_member [] = []
known_member (c ∷ id) = (codes "deviceId", text (c ∷ id)) ∷ []

abbrev pub register_object : BackendConfig → JsonValue
register_object cfg = object_of (
    known_member cfg.device_id
    ++ ((codes "name", text (heard 128 cfg.device_name))
        ∷ (codes "ipAddress", text cfg.device_ip)
        ∷ (codes "firmwareVersion", text (heard 128 cfg.firmware))
        ∷ (codes "model", text (heard 128 cfg.model))
        ∷ []))

abbrev register_rest : (cfg : BackendConfig) → Plain cfg.device_ip → List Piece
register_rest cfg ip =
    escaped_into 128 (omega arith) cfg.device_name
    ∷ literal (codes "\",\"ipAddress\":\"")
    ∷ given cfg.device_ip ip
    ∷ literal (codes "\",\"firmwareVersion\":\"")
    ∷ escaped_into 128 (omega arith) cfg.firmware
    ∷ literal (codes "\",\"model\":\"")
    ∷ escaped_into 128 (omega arith) cfg.model
    ∷ literal (codes "\"}")
    ∷ []

known_id_there :
    (c : ℕ) (cs rest : Bytes)
    → known_id (c ∷ cs) ++ rest ≡ codes "\"deviceId\":\"" ++ ((c ∷ cs) ++ (codes "\"," ++ rest))
unfolding known_id
known_id_there c cs rest =
    let there : (length (c ∷ cs) == 0) ≡ false = ground arith in
    rw there (ap (λ l. codes "\"deviceId\":\"" ++ l) (append_assoc (c ∷ cs) (codes "\",") rest))

pub register_tokens :
    (cfg : BackendConfig) (id : Bytes)
    → cfg.device_id ≡ id
    → Plain id
    → (ip : Plain cfg.device_ip)
    → tokens (concat (register_parts cfg)) ≡ some (tokens_of (register_object cfg))
unfolding feed next move tokens_of register_parts
register_tokens cfg [] e id ip =
    let rest = literal (codes "{\"name\":\"") ∷ register_rest cfg ip in
    ap
      (λ l. tokens (
        codes "{"
        ++ (known_id l ++ (codes "\"name\":\"" ++ concat (map written (register_rest cfg ip))))))
      e
    ∙ format_tokens rest _ (rw e refl)
register_tokens cfg (c ∷ cs) e id ip =
    let rest = literal (codes "\"name\":\"") ∷ register_rest cfg ip in
    ap (λ l. tokens (codes "{" ++ (known_id l ++ concat (map written rest)))) e
    ∙ ap (λ l. tokens (codes "{" ++ l)) (known_id_there c cs (concat (map written rest)))
    ∙ format_tokens
        (literal (codes "{\"deviceId\":\"") ∷ given (c ∷ cs) id ∷ literal (codes "\",") ∷ rest) _
        (rw e refl)
