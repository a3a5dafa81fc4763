-- ===== src/Backend/Tests.antt =====
-- A registered device of src/backend_client.c, its requests and its file.
use openwrt_edge_agent.Base.{
  ℕ, ◌≡◌, ◌⊎◌, refl, false, true, some, [], ◌∷◌, ◌++◌, map, Option, List, arith, Bytes, codes,
  bytes_eq, if◌then◌else◌, none,
}
use openwrt_edge_agent.Stats
use openwrt_edge_agent.DnsWindow.{DnsEvent}
use openwrt_edge_agent.Roster.{ClientEntry}
use openwrt_edge_agent.FxRing.{FxPacket}
use openwrt_edge_agent.Detector.{AnomalyAlert}
use openwrt_edge_agent.Backend.{BackendConfig, Post, is_registered}
use openwrt_edge_agent.Backend.Load.{read_device_id_file, backend_config_load}
use openwrt_edge_agent.Backend.Fits.{Fits, load-Fits}
use openwrt_edge_agent.Backend.Register.{write_device_id_file, register_post}
use openwrt_edge_agent.Backend.Identity.{Solid, read_device_id_file-write_device_id_file}
use openwrt_edge_agent.Backend.Usage.{
  CpuTimes, CpuSeen, MemLine, mem_total, mem_available, other, read_cpu_percent, read_mem_percent,
  AtMost100, percentages_bounded,
}
use openwrt_edge_agent.Backend.Bodies.{heartbeat_post, traffic_post, alert_post, endpoints_of}
use openwrt_edge_agent.Backend.Objects.{
  heartbeat_object, traffic_object, alert_object, register_object,
}
use openwrt_edge_agent.Backend.Requests.{tokens_in, bodies_read}
use openwrt_edge_agent.Backend.Reports.{Reports, event_object, client_object, packet_objects}
use openwrt_edge_agent.Backend.ListBodies.{
  queries_object, clients_object, packets_object, batches_read,
}
use openwrt_edge_agent.Json.Pieces.{Plain, all_plain-Plain}
use openwrt_edge_agent.Json.Value.{tokens_of}
use openwrt_edge_agent.FlowTable.{FlowEntry}
use openwrt_edge_agent.Backend.Batch.{dns_post, clients_post, forensics_post}
use openwrt_edge_agent.Backend.Batches.{TellsClients, clients_sent}

abbrev environment : Bytes → Option Bytes
environment name = some (codes "10.0.0.1")

abbrev files : Bytes → Option Bytes
files path = some (codes "dev7" ++ (10 ∷ []))

load-Fits_example :
    ((backend_config_load environment files).enabled ≡ false)
    ⊎ Fits (backend_config_load environment files)
load-Fits_example = load-Fits environment files

abbrev config : BackendConfig
config = record {
  enabled = true;
  scheme = codes "https";
  host = codes "backend";
  port = 443;
  device_id = codes "dev7";
  device_id_path = codes "/etc/id";
  device_name = codes "Edge";
  device_ip = codes "10.0.0.1";
  firmware = codes "23";
  model = codes "WRT";
  api_key = codes "key";
}

config-Fits : Fits config
config-Fits = omega arith

dev7-Solid : Solid (codes "dev7")
dev7-Solid = ground arith

dev7_written :
    write_device_id_file (codes "/etc/id") (codes "dev7") ≡ some (codes "dev7" ++ (10 ∷ []))
unfolding write_device_id_file
dev7_written = refl

read_device_id_file-write_device_id_file_example :
    read_device_id_file files (codes "/etc/id") 64 ≡ some (codes "dev7")
read_device_id_file-write_device_id_file_example =
    read_device_id_file-write_device_id_file files (codes "/etc/id") (codes "dev7")
      (codes "dev7" ++ (10 ∷ [])) dev7_written refl (omega arith) dev7-Solid

abbrev times : CpuTimes
times = record {
  user = 50;
  nice = 0;
  sys = 20;
  idle = 130;
  iowait = 0;
  irq = 0;
  softirq = 0;
  steal = 0;
}

abbrev seen : CpuSeen
seen = record { total = 100; idle = 90 }

abbrev memory : List MemLine
memory = mem_total 1000 ∷ other ∷ mem_available 400 ∷ []

percentages_bounded_example :
    AtMost100 (read_cpu_percent (some times) seen).0 × AtMost100 (read_mem_percent memory)
percentages_bounded_example = percentages_bounded (some times) seen memory

abbrev alert : AnomalyAlert
alert = record {
  type = codes "UDP_FLOOD";
  severity = codes "HIGH";
  protocol = codes "UDP";
  packet_count = 900;
  bytes_count = 70000;
  description = codes "UDP flood";
}

abbrev flow : FlowEntry
flow = record {
  src_ip = codes "10.0.0.2";
  dst_ip = codes "10.0.0.3";
  src_port = 4000;
  dst_port = 53;
  protocol = 17;
  packets = 900;
  bytes = 70000;
}

abbrev stamp : Bytes
stamp = codes "2024-01-01T00:00:00Z"

registered : is_registered config ≡ true
unfolding is_registered
registered = refl

Plain-stamp : Plain stamp
Plain-stamp = all_plain-Plain stamp refl

Plain-id : Plain (codes "dev7")
Plain-id = all_plain-Plain (codes "dev7") refl

bodies_read_example :
    (tokens_in (register_post config) ≡ some (tokens_of (register_object config)))
    × (tokens_in (heartbeat_post config stamp (some 7) (some 60))
        ≡ some (tokens_of (heartbeat_object stamp (some 7) (some 60))))
    × (tokens_in (traffic_post config Stats.init 5 stamp)
        ≡ some (tokens_of (traffic_object config 5 stamp Stats.init)))
    × (tokens_in (alert_post config alert (some flow) 5 stamp)
        ≡ some (tokens_of (alert_object config 5 stamp alert (endpoints_of (some flow)))))
unfolding endpoints_of Stats.init
bodies_read_example =
    bodies_read Stats.init alert (some flow) (some 7) (some 60) 5 stamp config-Fits registered
      (Plain-id, (all_plain-Plain (codes "10.0.0.1") refl, (Plain-stamp, tt))) (omega arith)
      (
        (
          all_plain-Plain (codes "UDP_FLOOD") refl,
          (all_plain-Plain (codes "HIGH") refl, (all_plain-Plain (codes "UDP") refl, tt)),
        ),
        omega arith,
        (
          (all_plain-Plain (codes "10.0.0.2") refl, omega arith),
          ((all_plain-Plain (codes "10.0.0.3") refl, omega arith), tt),
        ),
        omega arith,
      )
      (omega arith) (omega arith)

abbrev query : DnsEvent
query = record { client_ip = codes "10.0.0.2"; domain = codes "a.b"; count = 3 }

abbrev client : ClientEntry
client = record { ip = codes "10.0.0.2"; mac = codes "00:11"; name = codes "tv"; online = true }

abbrev packet : FxPacket
packet = record {
  ts = 9;
  src_ip = codes "10.0.0.2";
  dst_ip = codes "10.0.0.3";
  src_port = 4000;
  dst_port = 53;
  protocol = 17;
  size = 80;
}

abbrev written_time : ℕ → Bytes
written_time now = stamp

batches_read_example :
    Reports
      (codes "/api/dns/queries")
      (queries_object config stamp 5)
      (map event_object (query ∷ query ∷ []))
      (dns_post config (query ∷ query ∷ []) 5 stamp)
    × Reports
        (codes "/api/clients")
        (clients_object config stamp)
        (map client_object (client ∷ []))
        (clients_post config (client ∷ []) stamp)
    × Reports
        (codes "/api/forensics/packets/batch")
        (packets_object config)
        (packet_objects written_time (packet ∷ []))
        (forensics_post written_time config (packet ∷ []))
batches_read_example =
    batches_read written_time config (query ∷ query ∷ []) (client ∷ []) (packet ∷ []) 5 stamp
      (λ now. Plain-stamp) Plain-id Plain-stamp (omega arith) (omega arith)

clients_sent_example :
    (post : Post) × (clients_post config (client ∷ []) stamp ≡ some post)
    × (post.path ≡ codes "/api/clients")
    × TellsClients config stamp (client ∷ []) post.body
clients_sent_example =
    clients_sent config (client ∷ []) stamp registered (omega arith) (omega arith) (omega arith)

abbrev bare_environment : Bytes → Option Bytes
bare_environment name =
    if bytes_eq name (codes "BACKEND_HOST") then some (codes "backend") else none
