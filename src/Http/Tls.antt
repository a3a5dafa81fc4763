-- ===== src/Http/Tls.antt =====
-- `http_post_tls` of src/http_client.c, and `http_post_json`, which chooses between it and the plain
-- socket.
use openwrt_edge_agent.Base.{
  ℕ, ◌-◌, Bool, true, false, ◌&&◌, List, [], ◌∷◌, ◌++◌, leb, ◌==◌, if◌then◌else◌, Bytes, codes,
  length, take, drop, bytes_eq,
}
use openwrt_edge_agent.Http.{
  http_request_max, http_response_max, Sent, request_text, tls_object, Call, takes, releases,
  Posted, failed, with_calls, conclude,
}
use openwrt_edge_agent.Http.Plain.{Connection, http_post_plain}

-- A result of a call of mbedTLS: MBEDTLS_ERR_SSL_WANT_READ or WRITE, a failure, or a number of bytes,
-- which is 0 for a handshake that is done.
pub data TlsResult : Type 0 where
  again : TlsResult
  broken : TlsResult
  moved : ℕ → TlsResult

-- A result of `mbedtls_ssl_read`.
pub data TlsChunk : Type 0 where
  wait : TlsChunk
  ended : TlsChunk
  got : Bytes → TlsChunk

-- The results of the calls for one session.
pub record TlsSession : Type 0 where
  pub seeds : Bool
  pub connects : Bool
  pub configures : Bool
  pub sets_up : Bool
  pub sets_hostname : Bool
  pub handshakes : List TlsResult
  pub writes : List TlsResult
  pub reads : List TlsChunk

-- the loop of the handshake
unfoldable pub handshake : List TlsResult → Bool
handshake [] = false
handshake (again ∷ results) = handshake results
handshake (broken ∷ results) = false
handshake (moved n ∷ results) = n == 0

-- the loop over `mbedtls_ssl_write`
unfoldable pub tls_write_from : List TlsResult → Bytes → Bytes → Sent
tls_write_from results [] wire = record { whole = true; wire = wire }
tls_write_from [] (b ∷ bs) wire = record { whole = false; wire = wire }
tls_write_from (again ∷ results) (b ∷ bs) wire = tls_write_from results (b ∷ bs) wire
tls_write_from (broken ∷ results) (b ∷ bs) wire = record { whole = false; wire = wire }
tls_write_from (moved n ∷ results) (b ∷ bs) wire =
    let rest = tls_write_from results (drop n (b ∷ bs)) (wire ++ take n (b ∷ bs)) in
    if n == 0 then record { whole = false; wire = wire } else rest

-- the loop over `mbedtls_ssl_read`
unfoldable pub tls_read_from : ℕ → List TlsChunk → Bytes → Bytes
tls_read_from limit [] out = out
tls_read_from limit (wait ∷ chunks) out =
    let rest = tls_read_from limit chunks out in if leb limit (length out) then out else rest
tls_read_from limit (ended ∷ chunks) out = out
tls_read_from limit (got chunk ∷ chunks) out =
    let rest = tls_read_from limit chunks (out ++ take (limit - length out) chunk) in
    if leb limit (length out) then out else if length chunk == 0 then out else rest

-- the calls up to the handshake, in their order
abbrev pub is_ready : TlsSession → Bool
is_ready tls =
    tls.seeds
    && (tls.connects
        && (tls.configures && (tls.sets_up && (tls.sets_hostname && handshake tls.handshakes))))

-- the six `init` calls, for the socket, the session, its configuration, the entropy, the random numbers
-- and the certificates
abbrev pub tls_inits : List Call
tls_inits =
    takes (tls_object 0)
    ∷ takes (tls_object 1)
    ∷ takes (tls_object 2)
    ∷ takes (tls_object 3)
    ∷ takes (tls_object 4)
    ∷ takes (tls_object 5)
    ∷ []

-- the calls behind `cleanup`
abbrev pub tls_cleanup : List Call
tls_cleanup =
    releases (tls_object 5)
    ∷ releases (tls_object 1)
    ∷ releases (tls_object 2)
    ∷ releases (tls_object 4)
    ∷ releases (tls_object 3)
    ∷ releases (tls_object 0)
    ∷ []

unfoldable pub exchange_tls : TlsSession → Bytes → ℕ → Posted
unfolding handshake tls_write_from tls_read_from conclude
exchange_tls tls request resp_size =
    let posted =
      if is_ready tls
      then (let sent = tls_write_from tls.writes request [] in
          if sent.whole
          then conclude (tls_read_from (http_response_max - 1) tls.reads []) resp_size sent.wire
          else failed sent.wire)
      else failed [] in
    with_calls (tls_inits ++ tls_cleanup) posted

-- `http_post_tls`
unfoldable pub http_post_tls : TlsSession → Bytes → Bytes → Bytes → Bytes → ℕ → Posted
unfolding request_text exchange_tls
http_post_tls tls host path body api_key resp_size =
    let request = request_text path host api_key body in
    if leb http_request_max (length request) then failed [] else exchange_tls tls request resp_size

-- `http_post_json`
unfoldable pub http_post_json :
    Connection → TlsSession → Bytes → Bytes → ℕ → Bytes → Bytes → Bytes → ℕ → Posted
unfolding http_post_plain http_post_tls
http_post_json net tls scheme host port path body api_key resp_size =
    if bytes_eq scheme (codes "https")
    then http_post_tls tls host path body api_key resp_size
    else http_post_plain net host port path body api_key resp_size
