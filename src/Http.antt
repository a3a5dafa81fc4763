-- ===== src/Http.antt =====
-- src/http_client.h and src/http_client.c: requests, responses and the outcome of a POST. The results of the calls
-- of sockets and pipes are given as lists, in the order of the calls; a call behind the last result
-- fails.
pub mod Plain
pub mod Tls
pub mod Get
pub mod Transfer
pub mod Released
pub mod Request
pub mod Shell
mod Tests
use openwrt_edge_agent.Base.{
  ℕ, suc, ◌+◌, ◌-◌, Bool, true, false, not, ◌&&◌, ◌||◌, List, [], ◌∷◌, ◌++◌, Option, none, some,
  ltb, leb, ◌==◌, if◌then◌else◌, Bytes, codes, length, take, drop, c_str, bytes_eq, copy_into,
  after_prefix, after_first,
}
use openwrt_edge_agent.Decimal.{decimal, strtoull}

abbrev pub http_request_max : ℕ
http_request_max = 16384

abbrev pub http_response_max : ℕ
http_response_max = 4096

-- What a loop over `send` has done: whether it got through, and the bytes that were taken.
pub record Sent : Type 0 where
  pub whole : Bool
  pub wire : Bytes

-- `send_all` from `data` on, with `wire` behind it; a result of 0 stands for `n <= 0`
unfoldable pub send_from : List ℕ → Bytes → Bytes → Sent
send_from results [] wire = record { whole = true; wire = wire }
send_from [] (b ∷ bs) wire = record { whole = false; wire = wire }
send_from (n ∷ results) (b ∷ bs) wire =
    let rest = send_from results (drop n (b ∷ bs)) (wire ++ take n (b ∷ bs)) in
    if n == 0 then record { whole = false; wire = wire } else rest

-- `send_all`
unfoldable pub send_all : List ℕ → Bytes → Sent
unfolding send_from
send_all results data_sent = send_from results data_sent []

-- the loop over `recv` or `fread`, up to `limit` bytes; an empty chunk stands for `n <= 0`
unfoldable pub receive_from : ℕ → List Bytes → Bytes → Bytes
receive_from limit [] out = out
receive_from limit (chunk ∷ chunks) out =
    let rest = receive_from limit chunks (out ++ take (limit - length out) chunk) in
    if leb limit (length out) then out else if length chunk == 0 then out else rest

-- the number that `%d` of `sscanf` reads, and what follows; a number out of the range of `int`, and a
-- negative one, is a number above that range
unfoldable pub scan_int : Bytes → Option (ℕ × Bytes)
scan_int text = strtoull text

-- the code behind the version
unfoldable pub scan_code : Bytes → Option ℕ
unfolding scan_int
scan_code text = elim (scan_int text) [ none ↦ none | some (code, _) ↦ some code ]

-- the minor version and the code
unfoldable pub scan_minor : Bytes → Option ℕ
unfolding scan_int scan_code
scan_minor text = elim (after_prefix (codes ".") text) [
  | none ↦ none
  | some rest ↦ elim (scan_int rest) [ none ↦ none | some (_, behind) ↦ scan_code behind ]
]

-- `parse_status_code`; `none` is -1
unfoldable pub parse_status_code : Bytes → Option ℕ
unfolding scan_int scan_minor
parse_status_code response = elim (after_prefix (codes "HTTP/") (c_str response)) [
  | none ↦ none
  | some rest ↦ elim (scan_int rest) [ none ↦ none | some (_, behind) ↦ scan_minor behind ]
]

abbrev pub crlf : Bytes
crlf = 13 ∷ 10 ∷ []

-- a line of a header, in front of the rest
abbrev pub line : Bytes → Bytes → Bytes
line text rest = text ++ (crlf ++ rest)

-- `api_key_header`
unfoldable pub api_key_header : Bytes → ℕ → Bytes
api_key_header api_key size =
    if length api_key == 0 then [] else copy_into size (codes "X-API-Key: " ++ (api_key ++ crlf))

-- the text of a request; the plain one names the port behind the host
unfoldable pub request_text : Bytes → Bytes → Bytes → Bytes → Bytes
unfolding api_key_header
request_text path host api_key body = line (codes "POST " ++ (path ++ codes " HTTP/1.1")) (
    line (codes "Host: " ++ host) (
      line (codes "Content-Type: application/json") (
        api_key_header api_key 96
        ++ line (codes "Content-Length: " ++ decimal (length body))
            (line (codes "Connection: close") (crlf ++ body)))))

abbrev pub host_and_port : Bytes → ℕ → Bytes
host_and_port host port = host ++ (codes ":" ++ decimal port)

-- What a POST takes from the system or from mbedTLS, and has to give back: the list of
-- `getaddrinfo`, a socket, and the six objects of a session.
pub data Resource : Type 0 where
  addresses : Resource
  socket : ℕ → Resource
  tls_object : ℕ → Resource

pub data Call : Type 0 where
  takes : Resource → Call
  releases : Resource → Call

-- The outcome of a POST: the status, where `none` is -1, what `resp_body` holds, the bytes of the
-- request that the peer was sent, and the calls that took something or gave it back.
pub record Posted : Type 0 where
  pub status : Option ℕ
  pub resp : Bytes
  pub wire : Bytes
  pub calls : List Call

abbrev pub failed : Bytes → Posted
failed wire = record { status = none; resp = []; wire = wire; calls = [] }

abbrev pub with_calls : List Call → Posted → Posted
with_calls calls posted = record {
  status = posted.status;
  resp = posted.resp;
  wire = posted.wire;
  calls = calls;
}

-- the body of a response, as far as `resp_body` holds it; a size of 0 stands for no buffer
unfoldable pub response_body : Bytes → ℕ → Bytes
response_body response resp_size =
    if resp_size == 0 then [] else (elim (after_first (crlf ++ crlf) (c_str response)) [
      | none ↦ []
      | some body ↦ copy_into resp_size body
    ])

-- what follows the receiving loop
unfoldable pub conclude : Bytes → ℕ → Bytes → Posted
unfolding parse_status_code response_body
conclude response resp_size wire = if length response == 0 then failed wire else record {
  status = parse_status_code response;
  resp = response_body response resp_size;
  wire = wire;
  calls = [];
}
