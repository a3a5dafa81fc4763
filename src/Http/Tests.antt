-- ===== src/Http/Tests.antt =====
-- A POST in two pieces, and the command for a URL, as src/http_client.c makes them.
use openwrt_edge_agent.Base.{◌≡◌, ◌⊎◌, false, true, none, some, [], ◌∷◌, arith, Bytes, codes}
use openwrt_edge_agent.Http.{send_all}
use openwrt_edge_agent.Http.Plain.{Attempt, Connection}
use openwrt_edge_agent.Http.Released.{held, http_post_json_releases}
use openwrt_edge_agent.Http.Tls.{TlsSession, moved, got, ended, http_post_json}
use openwrt_edge_agent.Http.Get.{Command}
use openwrt_edge_agent.Http.Transfer.{request_of, send_all_finishes, http_post_json_delivers}

abbrev text : Bytes
text = codes "{}"

send_all_finishes_example :
    ((send_all (1 ∷ 5 ∷ []) text).whole ≡ true) × ((send_all (1 ∷ 5 ∷ []) text).wire ≡ text)
send_all_finishes_example =
    send_all_finishes (1 ∷ 5 ∷ []) text (omega arith, (omega arith, tt)) (omega arith)

abbrev refused : Attempt
refused = record { opened = some 5; connects = false }

abbrev accepted : Attempt
accepted = record { opened = some 5; connects = true }

abbrev net : Connection
net = record {
  found = some (refused ∷ accepted ∷ []);
  sends = 60 ∷ 200 ∷ [];
  chunks = codes "HTTP/1.1 201 Created" ∷ [];
}

abbrev session : TlsSession
session = record {
  seeds = true;
  connects = true;
  configures = true;
  sets_up = true;
  sets_hostname = true;
  handshakes = moved 0 ∷ [];
  writes = moved 500 ∷ [];
  reads = got (codes "HTTP/1.1 200 OK") ∷ ended ∷ [];
}

http_post_json_delivers_example :
    ((http_post_json net session (codes "http") (codes "h") 80 (codes "/p") text [] 0).status
      ≡ none)
    ⊎ ((http_post_json net session (codes "http") (codes "h") 80 (codes "/p") text [] 0).wire
        ≡ request_of (codes "http") (codes "h") 80 (codes "/p") text [])
http_post_json_delivers_example =
    http_post_json_delivers net session (codes "http") (codes "h") 80 (codes "/p") text [] 0

abbrev url : Bytes
url = codes "https://h:443/api"

abbrev answering : Bytes → Command
answering command = record { opens = true; output = codes "ok" ∷ []; succeeds = true }

http_post_json_releases_example :
    held
      (some [])
      (http_post_json net session (codes "http") (codes "h") 80 (codes "/p") text [] 0).calls
    ≡ some []
http_post_json_releases_example =
    http_post_json_releases net session (codes "http") (codes "h") 80 (codes "/p") text [] 0
