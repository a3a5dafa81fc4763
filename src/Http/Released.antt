-- ===== src/Http/Released.antt =====
-- What the POST of src/http_client.c takes from the system, and what it gives back.
use openwrt_edge_agent.Base.{
  ℕ, ◌≡◌, refl, ap, ◌∙◌, Bool, true, false, List, [], ◌∷◌, ◌++◌, Option, none, some, arith, leb,
  ◌==◌, if◌then◌else◌, if_intro, Bytes, codes, bytes_eq, length,
}
use openwrt_edge_agent.Http.{
  http_request_max, send_all, Resource, addresses, socket, tls_object, Call, takes, releases,
  Posted, request_text, host_and_port, failed,
}
use openwrt_edge_agent.Http.Plain.{
  Attempt, connect_each, connect_to, Connection, talk, exchange_on, exchange_plain, http_post_plain,
}
use openwrt_edge_agent.Http.Tls.{TlsSession, exchange_tls, http_post_tls, http_post_json}

abbrev pub same : Resource → Resource → Bool
same addresses addresses = true
same (socket m) (socket n) = m == n
same (tls_object m) (tls_object n) = m == n
same r s = false

abbrev pub kept : Resource → Option (List Resource) → Option (List Resource)
kept r none = none
kept r (some rs) = some (r ∷ rs)

-- The resources that are left when one is given back; `none` if it is not there.
abbrev pub without : Resource → List Resource → Option (List Resource)
without r [] = none
without r (s ∷ rs) = if same r s then some rs else kept s (without r rs)

abbrev pub after : Option (List Resource) → Call → Option (List Resource)
after none call = none
after (some rs) (takes r) = some (r ∷ rs)
after (some rs) (releases r) = without r rs

-- What is held after some calls; `none` if one of them gave back what was not held.
unfoldable pub held : Option (List Resource) → List Call → Option (List Resource)
held rs [] = rs
held rs (call ∷ calls) = held (after rs call) calls

held-append :
    (rs : Option (List Resource)) (xs ys : List Call) → held rs (xs ++ ys) ≡ held (held rs xs) ys
unfolding held
held-append rs [] ys = refl
held-append rs (call ∷ xs) ys = held-append (after rs call) xs ys

abbrev open_sockets : Option ℕ → List Resource
open_sockets none = []
open_sockets (some fd) = socket fd ∷ []

equal_self : (n : ℕ) → (n == n) ≡ true
equal_self n = ground arith

abbrev Opens : List Attempt → Type 0
Opens attempts =
    (rs : List Resource)
    → held (some rs) (connect_each attempts).calls
      ≡ some (open_sockets (connect_each attempts).fd ++ rs)

given_back : (fd : ℕ) (rs : List Resource) → without (socket fd) (socket fd ∷ rs) ≡ some rs
given_back fd rs = rw (equal_self fd) refl

attempt-Opens :
    (opened : Option ℕ) (connects : Bool) (attempts : List Attempt)
    → Opens attempts
    → Opens (record { opened = opened; connects = connects } ∷ attempts)
unfolding held connect_each
attempt-Opens none connects attempts h rs = h rs
attempt-Opens (some fd) true attempts h rs = refl
attempt-Opens (some fd) false attempts h rs =
    ap (λ r. held r (connect_each attempts).calls) (given_back fd rs) ∙ h rs

-- Behind the loop, the socket that is connected is open, and no other.
connect_each-Opens : (attempts : List Attempt) → Opens attempts
unfolding held connect_each
connect_each-Opens [] rs = refl
connect_each-Opens (attempt ∷ attempts) rs =
    attempt-Opens attempt.opened attempt.connects attempts (connect_each-Opens attempts) rs

connect_to-held :
    (found : Option (List Attempt))
    → held (some []) (connect_to found).calls ≡ some (open_sockets (connect_to found).fd)
unfolding held connect_to
connect_to-held none = refl
connect_to-held (some attempts) =
    let each = connect_each attempts in
    held-append (some (addresses ∷ [])) each.calls (releases addresses ∷ [])
    ∙ ap (λ r. held r (releases addresses ∷ [])) (connect_each-Opens attempts (addresses ∷ []))
    ∙ last each.fd
  where
    last :
        (fd : Option ℕ)
        → held (some (open_sockets fd ++ (addresses ∷ []))) (releases addresses ∷ [])
          ≡ some (open_sockets fd)
    last none = refl
    last (some fd) = refl

talk_calls :
    (net : Connection) (calls : List Call) (fd : ℕ) (request : Bytes) (resp_size : ℕ)
    → (talk net calls fd request resp_size).calls ≡ calls ++ (releases (socket fd) ∷ [])
unfolding talk
talk_calls net calls fd request resp_size =
    if_intro (λ (p : Posted). p.calls ≡ calls ++ (releases (socket fd) ∷ []))
      (send_all net.sends request).whole _ _ (λ _. refl) (λ _. refl)

exchange_on-held :
    (net : Connection) (fd : Option ℕ) (calls : List Call) (request : Bytes) (resp_size : ℕ)
    → held (some []) calls ≡ some (open_sockets fd)
    → held (some []) (exchange_on net fd calls request resp_size).calls ≡ some []
unfolding held exchange_on
exchange_on-held net none calls request resp_size e = e
exchange_on-held net (some fd) calls request resp_size e =
    ap (held (some [])) (talk_calls net calls fd request resp_size)
    ∙ held-append (some []) calls (releases (socket fd) ∷ [])
    ∙ ap (λ r. held r (releases (socket fd) ∷ [])) e
    ∙ given_back fd []

abbrev Clean : Posted → Type 0
Clean posted = held (some []) posted.calls ≡ some []

post_tls-Clean :
    (tls : TlsSession) (host path body api_key : Bytes) (resp_size : ℕ)
    → Clean (http_post_tls tls host path body api_key resp_size)
unfolding held http_post_tls exchange_tls
post_tls-Clean tls host path body api_key resp_size =
    let request = request_text path host api_key body in
    if_intro Clean (leb http_request_max (length request)) (failed [])
      (exchange_tls tls request resp_size) (λ _. refl) (λ _. refl)

post_plain-Clean :
    (net : Connection) (host : Bytes) (port : ℕ) (path body api_key : Bytes) (resp_size : ℕ)
    → Clean (http_post_plain net host port path body api_key resp_size)
unfolding held http_post_plain exchange_plain
post_plain-Clean net host port path body api_key resp_size =
    let request = request_text path (host_and_port host port) api_key body in
    let to = connect_to net.found in
    if_intro Clean (leb http_request_max (length request)) (failed [])
      (exchange_plain net request resp_size) (λ _. refl)
      (λ _. exchange_on-held net to.fd to.calls request resp_size (connect_to-held net.found))

-- Whatever the calls of the system and of mbedTLS do, `http_post_json` gives back all that it took and
-- gives nothing back twice: the list of addresses, every socket that it opened, also those that did not
-- connect, and the six objects of a TLS session, each of which was initialised before it is freed.
pub http_post_json_releases :
    (net : Connection) (tls : TlsSession) (scheme host : Bytes) (port : ℕ)
    (path body api_key : Bytes) (resp_size : ℕ)
    → held (some []) (http_post_json net tls scheme host port path body api_key resp_size).calls
      ≡ some []
unfolding http_post_json
http_post_json_releases net tls scheme host port path body api_key resp_size =
    if_intro Clean (bytes_eq scheme (codes "https"))
      (http_post_tls tls host path body api_key resp_size)
      (http_post_plain net host port path body api_key resp_size)
      (λ _. post_tls-Clean tls host path body api_key resp_size)
      (λ _. post_plain-Clean net host port path body api_key resp_size)
