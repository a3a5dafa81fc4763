-- ===== src/Backend/Bodies.antt =====
-- The requests of src/backend_client.c with a body of one buffer: `backend_send_heartbeat`,
-- `backend_send_traffic` and `backend_send_alert`. `none` is the result -1 before any request; formatted
-- times and the two percentages are given.
use openwrt_edge_agent.Base.{ℕ, List, [], ◌∷◌, Option, none, some, if◌then◌else◌, Bytes, codes}
use openwrt_edge_agent.Decimal.{decimal_int, decimal}
use openwrt_edge_agent.Json.{json_escape}
use openwrt_edge_agent.Stats.{TrafficStats}
use openwrt_edge_agent.FlowTable.{FlowEntry}
use openwrt_edge_agent.Detector.{AnomalyAlert}
use openwrt_edge_agent.Backend.{BackendConfig, Post, is_registered, snprintf}

-- the body of a heartbeat; the percentages are there if both are known
unfoldable pub heartbeat_parts : Bytes → Option ℕ → Option ℕ → List Bytes
heartbeat_parts timestamp none mem = codes "{\"seenAt\":\"" ∷ timestamp ∷ codes "\"}" ∷ []
heartbeat_parts timestamp (some cpu) none = codes "{\"seenAt\":\"" ∷ timestamp ∷ codes "\"}" ∷ []
heartbeat_parts timestamp (some cpu) (some mem) =
    codes "{\"seenAt\":\""
    ∷ timestamp
    ∷ codes "\",\"cpuPercent\":"
    ∷ decimal cpu
    ∷ codes ",\"memPercent\":"
    ∷ decimal mem
    ∷ codes "}"
    ∷ []

-- `backend_send_heartbeat`
unfoldable pub heartbeat_post : BackendConfig → Bytes → Option ℕ → Option ℕ → Option Post
unfolding is_registered heartbeat_parts
heartbeat_post cfg timestamp cpu mem =
    if is_registered cfg
    then some (record {
      path = snprintf 128 (codes "/api/devices/" ∷ cfg.device_id ∷ codes "/heartbeat" ∷ []);
      body = snprintf 128 (heartbeat_parts timestamp cpu mem);
    })
    else none

unfoldable pub traffic_parts : BackendConfig → TrafficStats → ℕ → Bytes → List Bytes
traffic_parts cfg stats window_seconds timestamp =
    codes "{\"deviceId\":\""
    ∷ cfg.device_id
    ∷ codes "\",\"timestamp\":\""
    ∷ timestamp
    ∷ codes "\",\"totalPackets\":"
    ∷ decimal stats.total_packets
    ∷ codes ",\"tcpPackets\":"
    ∷ decimal stats.tcp_packets
    ∷ codes ",\"udpPackets\":"
    ∷ decimal stats.udp_packets
    ∷ codes ",\"totalBytes\":"
    ∷ decimal stats.total_bytes
    ∷ codes ",\"tcpBytes\":"
    ∷ decimal stats.tcp_bytes
    ∷ codes ",\"udpBytes\":"
    ∷ decimal stats.udp_bytes
    ∷ codes ",\"windowSeconds\":"
    ∷ decimal_int window_seconds
    ∷ codes "}"
    ∷ []

-- `backend_send_traffic`
unfoldable pub traffic_post : BackendConfig → TrafficStats → ℕ → Bytes → Option Post
unfolding is_registered traffic_parts
traffic_post cfg stats window_seconds timestamp =
    if is_registered cfg
    then some (record {
      path = codes "/api/traffic/stats";
      body = snprintf 1024 (traffic_parts cfg stats window_seconds timestamp);
    })
    else none

-- The four fields of a flow that an alert names.
pub record Endpoints : Type 0 where
  pub src_ip : Bytes
  pub dst_ip : Bytes
  pub src_port : ℕ
  pub dst_port : ℕ

unfoldable pub endpoints_of : Option FlowEntry → Endpoints
endpoints_of none = record {
  src_ip = codes "0.0.0.0";
  dst_ip = codes "0.0.0.0";
  src_port = 0;
  dst_port = 0;
}
endpoints_of (some flow) = record {
  src_ip = flow.src_ip;
  dst_ip = flow.dst_ip;
  src_port = flow.src_port;
  dst_port = flow.dst_port;
}

unfoldable pub alert_parts : BackendConfig → AnomalyAlert → Endpoints → ℕ → Bytes → List Bytes
alert_parts cfg alert ends window_seconds timestamp =
    codes "{\"deviceId\":\""
    ∷ cfg.device_id
    ∷ codes "\",\"timestamp\":\""
    ∷ timestamp
    ∷ codes "\",\"type\":\""
    ∷ alert.type
    ∷ codes "\",\"severity\":\""
    ∷ alert.severity
    ∷ codes "\",\"protocol\":\""
    ∷ alert.protocol
    ∷ codes "\",\"sourceIp\":\""
    ∷ ends.src_ip
    ∷ codes "\",\"destinationIp\":\""
    ∷ ends.dst_ip
    ∷ codes "\",\"sourcePort\":"
    ∷ decimal ends.src_port
    ∷ codes ",\"destinationPort\":"
    ∷ decimal ends.dst_port
    ∷ codes ",\"packetCount\":"
    ∷ decimal alert.packet_count
    ∷ codes ",\"bytesCount\":"
    ∷ decimal alert.bytes_count
    ∷ codes ",\"windowSeconds\":"
    ∷ decimal_int window_seconds
    ∷ codes ",\"description\":\""
    ∷ json_escape 256 alert.description
    ∷ codes "\"}"
    ∷ []

-- `backend_send_alert`
unfoldable pub alert_post :
    BackendConfig → AnomalyAlert → Option FlowEntry → ℕ → Bytes → Option Post
unfolding is_registered endpoints_of alert_parts
alert_post cfg alert flow window_seconds timestamp =
    if is_registered cfg
    then some (record {
      path = codes "/api/alerts";
      body = snprintf 1024 (alert_parts cfg alert (endpoints_of flow) window_seconds timestamp);
    })
    else none
