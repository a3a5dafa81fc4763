-- ===== src/Http/Plain.antt =====
-- `connect_to` and `http_post_plain` of src/http_client.c.
use openwrt_edge_agent.Base.{
  ℕ, ◌-◌, Bool, List, [], ◌∷◌, ◌++◌, Option, none, some, leb, if◌then◌else◌, Bytes, length,
}
use openwrt_edge_agent.Http.{
  http_request_max, http_response_max, send_all, receive_from, request_text, host_and_port,
  addresses, socket, Call, takes, releases, Posted, failed, with_calls, conclude,
}

-- What comes of one address: the descriptor of `socket`, if there is one, and whether `connect` gets
-- through.
pub record Attempt : Type 0 where
  pub opened : Option ℕ
  pub connects : Bool

-- The descriptor that is connected, and the calls so far.
pub record Connected : Type 0 where
  pub fd : Option ℕ
  pub calls : List Call

-- the loop over the addresses
unfoldable pub connect_each : List Attempt → Connected
connect_each [] = record { fd = none; calls = [] }
connect_each (attempt ∷ attempts) =
    let later = connect_each attempts in
    elim attempt.opened [
      | none ↦ later
      | some fd ↦
          if attempt.connects
          then record { fd = some fd; calls = takes (socket fd) ∷ [] }
          else record {
            fd = later.fd;
            calls = takes (socket fd) ∷ releases (socket fd) ∷ later.calls;
          }
    ]

-- `connect_to`, on the addresses of `getaddrinfo`, if it finds some
unfoldable pub connect_to : Option (List Attempt) → Connected
unfolding connect_each
connect_to none = record { fd = none; calls = [] }
connect_to (some attempts) =
    let each = connect_each attempts in
    record { fd = each.fd; calls = takes addresses ∷ (each.calls ++ (releases addresses ∷ [])) }

-- The results of the calls for one plain connection.
pub record Connection : Type 0 where
  pub found : Option (List Attempt)
  pub sends : List ℕ
  pub chunks : List Bytes

-- the connection to `fd`, which is closed behind the loop or the failure
unfoldable pub talk : Connection → List Call → ℕ → Bytes → ℕ → Posted
unfolding send_all receive_from conclude
talk net calls fd request resp_size =
    let sent = send_all net.sends request in
    let closed = calls ++ (releases (socket fd) ∷ []) in
    if sent.whole
    then with_calls closed
        (conclude (receive_from (http_response_max - 1) net.chunks []) resp_size sent.wire)
    else with_calls closed (failed sent.wire)

-- what follows `connect_to`
unfoldable pub exchange_on : Connection → Option ℕ → List Call → Bytes → ℕ → Posted
unfolding talk
exchange_on net none calls request resp_size = with_calls calls (failed [])
exchange_on net (some fd) calls request resp_size = talk net calls fd request resp_size

unfoldable pub exchange_plain : Connection → Bytes → ℕ → Posted
unfolding connect_to exchange_on
exchange_plain net request resp_size =
    let to = connect_to net.found in exchange_on net to.fd to.calls request resp_size

-- `http_post_plain`
unfoldable pub http_post_plain : Connection → Bytes → ℕ → Bytes → Bytes → Bytes → ℕ → Posted
unfolding request_text exchange_plain
http_post_plain net host port path body api_key resp_size =
    let request = request_text path (host_and_port host port) api_key body in
    if leb http_request_max (length request)
    then failed []
    else exchange_plain net request resp_size
