-- ===== src/Backend/Batch.antt =====
-- The requests of src/backend_client.c with a list in the body: `backend_send_dns`,
-- `backend_send_clients` and `backend_send_forensics`. The three loops are one here, over the texts of
-- the items; `none` is the result -1 before any request, and formatted times are given.
use openwrt_edge_agent.Base.{
  ℕ, ◌+◌, ◌-◌, not, ◌&&◌, List, [], ◌∷◌, ◌++◌, map, Option, none, some, leb, ◌==◌, if◌then◌else◌,
  Bytes, codes, length,
}
use openwrt_edge_agent.Packet.{proto_tcp, proto_udp}
use openwrt_edge_agent.Decimal.{decimal_int, decimal}
use openwrt_edge_agent.Json.{json_escape}
use openwrt_edge_agent.DnsWindow.{DnsEvent}
use openwrt_edge_agent.Roster.{ClientEntry}
use openwrt_edge_agent.FxRing.{FxPacket}
use openwrt_edge_agent.Backend.{BackendConfig, Post, is_registered, concat}

-- `DNS_BODY_MAX`, `CLIENTS_BODY_MAX` and `FORENSICS_BODY_MAX`
abbrev pub body_max : ℕ
body_max = 8192

-- `snprintf (body + pos, sizeof (body) - pos, ...)`, where `pos` is the length of `out`: `none` is a
-- text that does not fit
unfoldable pub append_text : Bytes → Bytes → Option Bytes
append_text out text =
    if leb (body_max - length out) (length text) then none else some (out ++ text)

-- The body and the number of items written.
pub record Filled : Type 0 where
  pub text : Bytes
  pub written : ℕ

-- the loop over the items, each of which wants more than `margin` bytes to be left
unfoldable pub add_items : ℕ → List Bytes → Filled → Filled
unfolding append_text
add_items margin [] filled = filled
add_items margin (item ∷ items) filled =
    let comma = if filled.written == 0 then [] else codes "," in
    if leb body_max (length filled.text + margin)
    then filled
    else elim (append_text filled.text (comma ++ item)) [
      | none ↦ filled
      | some text ↦ add_items margin items (record { text = text; written = filled.written + 1 })
    ]

-- the end of the body
unfoldable pub end_body : Filled → Option Filled
unfolding append_text
end_body filled = elim (append_text filled.text (codes "]}")) [
  | none ↦ none
  | some whole ↦ some (record { text = whole; written = filled.written })
]

-- the head, the items and the end
unfoldable pub batch_body : ℕ → Bytes → List Bytes → Option Filled
unfolding append_text add_items end_body
batch_body margin head items = elim (append_text [] head) [
  | none ↦ none
  | some text ↦ end_body (add_items margin items (record { text = text; written = 0 }))
]

-- the request for a body that is there, if at least `least` items are in it
unfoldable pub batch_post : ℕ → Bytes → Option Filled → Option Post
batch_post least path none = none
batch_post least path (some filled) =
    if leb least filled.written then some (record { path = path; body = filled.text }) else none

unfoldable pub dns_item : DnsEvent → Bytes
dns_item event = concat (
    codes "{\"clientIp\":\""
    ∷ json_escape 32 event.client_ip
    ∷ codes "\",\"domain\":\""
    ∷ json_escape 512 event.domain
    ∷ codes "\",\"count\":"
    ∷ decimal event.count
    ∷ codes "}"
    ∷ [])

unfoldable pub dns_head : BackendConfig → ℕ → Bytes → Bytes
dns_head cfg window_seconds timestamp = concat (
    codes "{\"deviceId\":\""
    ∷ cfg.device_id
    ∷ codes "\",\"timestamp\":\""
    ∷ timestamp
    ∷ codes "\",\"windowSeconds\":"
    ∷ decimal_int window_seconds
    ∷ codes ",\"queries\":["
    ∷ [])

-- `backend_send_dns`
unfoldable pub dns_post : BackendConfig → List DnsEvent → ℕ → Bytes → Option Post
unfolding is_registered dns_item dns_head batch_body batch_post
dns_post cfg events window_seconds timestamp =
    if is_registered cfg && not (length events == 0)
    then batch_post 0 (codes "/api/dns/queries")
        (batch_body 512 (dns_head cfg window_seconds timestamp) (map dns_item events))
    else none

unfoldable pub client_item : ClientEntry → Bytes
client_item client = concat (
    codes "{\"ip\":\""
    ∷ json_escape 32 client.ip
    ∷ codes "\",\"mac\":\""
    ∷ json_escape 48 client.mac
    ∷ codes "\",\"name\":\""
    ∷ json_escape 128 client.name
    ∷ codes "\",\"online\":"
    ∷ (if client.online then codes "true" else codes "false")
    ∷ codes "}"
    ∷ [])

unfoldable pub clients_head : BackendConfig → Bytes → Bytes
clients_head cfg timestamp = concat (
    codes "{\"deviceId\":\""
    ∷ cfg.device_id
    ∷ codes "\",\"timestamp\":\""
    ∷ timestamp
    ∷ codes "\",\"clients\":["
    ∷ [])

-- `backend_send_clients`
unfoldable pub clients_post : BackendConfig → List ClientEntry → Bytes → Option Post
unfolding is_registered client_item clients_head batch_body batch_post
clients_post cfg clients timestamp =
    if is_registered cfg && not (length clients == 0)
    then batch_post 0 (codes "/api/clients")
        (batch_body 256 (clients_head cfg timestamp) (map client_item clients))
    else none

module _ (iso_time : ℕ → Bytes) where
  unfoldable pub packet_item : Bytes → FxPacket → Bytes
  packet_item proto packet = concat (
      codes "{\"timestamp\":\""
      ∷ iso_time packet.ts
      ∷ codes "\",\"protocol\":\""
      ∷ proto
      ∷ codes "\",\"sourceIp\":\""
      ∷ json_escape 32 packet.src_ip
      ∷ codes "\",\"destinationIp\":\""
      ∷ json_escape 32 packet.dst_ip
      ∷ codes "\",\"sourcePort\":"
      ∷ decimal packet.src_port
      ∷ codes ",\"destinationPort\":"
      ∷ decimal packet.dst_port
      ∷ codes ",\"packetSize\":"
      ∷ decimal packet.size
      ∷ codes "}"
      ∷ [])

  -- the items of the packets, where `continue` passes over those that are neither TCP nor UDP
  unfoldable pub packet_items : List FxPacket → List Bytes
  unfolding packet_item
  packet_items [] = []
  packet_items (packet ∷ packets) =
      let rest = packet_items packets in
      if packet.protocol == proto_tcp
      then packet_item (codes "TCP") packet ∷ rest
      else if packet.protocol == proto_udp
      then packet_item (codes "UDP") packet ∷ rest
      else rest

  -- `backend_send_forensics`
  unfoldable pub forensics_post : BackendConfig → List FxPacket → Option Post
  unfolding is_registered packet_items batch_body batch_post
  forensics_post cfg packets =
      if is_registered cfg && not (length packets == 0)
      then batch_post 1 (codes "/api/forensics/packets/batch") (
          batch_body 256
            (concat (codes "{\"deviceId\":\"" ∷ cfg.device_id ∷ codes "\",\"packets\":[" ∷ []))
            (packet_items packets))
      else none
