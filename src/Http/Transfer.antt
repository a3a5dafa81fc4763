-- ===== src/Http/Transfer.antt =====
-- The loops of src/http_client.c that send a request and receive a response.
use mathlib.Core.Path.{subst}
use openwrt_edge_agent.Base.{
  ℕ, zero, suc, ◌-◌, ◌≤◌, ◌<◌, ◌≡◌, refl, sym, ap, ◌∙◌, ◌⊎◌, inl, inr, Bool, true, false, List, [],
  ◌∷◌, ◌++◌, append_assoc, append-nil, none, arith, leb, ◌==◌, if◌then◌else◌, Bytes, codes, length,
  take, drop, All, Bool-cases, bytes_eq, if_intro, Option, some,
}
use openwrt_edge_agent.Http.{
  http_request_max, http_response_max, Sent, send_from, send_all, receive_from, request_text,
  host_and_port, Call, Posted, failed, conclude,
}
use openwrt_edge_agent.Http.Plain.{
  Connection, connect_to, talk, exchange_on, exchange_plain, http_post_plain,
}
use openwrt_edge_agent.Http.Tls.{
  is_ready, tls_read_from, TlsResult, again, broken, moved, tls_write_from, TlsSession,
  exchange_tls, http_post_tls, http_post_json,
}

take-drop : (n : ℕ) (xs : Bytes) → take n xs ++ drop n xs ≡ xs
take-drop zero xs = refl
take-drop (suc n) [] = refl
take-drop (suc n) (x ∷ xs) = ap (◌∷◌ x) (take-drop n xs)

length-drop : (n : ℕ) (xs : Bytes) → length (drop n xs) ≡ length xs - n
length-drop zero xs = omega arith
length-drop (suc n) [] = omega arith
length-drop (suc n) (x ∷ xs) = omega (arith, length-drop n xs)

step_wire : (n : ℕ) (xs wire : Bytes) → (wire ++ take n xs) ++ drop n xs ≡ wire ++ xs
step_wire n xs wire =
    append_assoc wire (take n xs) (drop n xs) ∙ ap (λ l. wire ++ l) (take-drop n xs)

-- A loop that got through sent what there was; one that did not sent a part from the front.
abbrev pub SentOf : Bytes → Sent → Type 0
SentOf total sent =
    ((sent.whole ≡ true) × (sent.wire ≡ total))
    ⊎ ((sent.whole ≡ false) × (rest : Bytes) × (sent.wire ++ rest ≡ total) × (0 < length rest))

send_from-SentOf :
    (results : List ℕ) (bytes wire : Bytes) → SentOf (wire ++ bytes) (send_from results bytes wire)
unfolding send_from
send_from-SentOf results [] wire = inl (refl, sym (append-nil wire))
send_from-SentOf [] (b ∷ bs) wire = inr (refl, b ∷ bs, refl, omega arith)
send_from-SentOf (n ∷ results) (b ∷ bs) wire = elim (Bool-cases (n == 0)) [
  | inl stop ↦ rw stop (inr (refl, b ∷ bs, refl, omega arith))
  | inr more ↦ rw more (
      subst (λ t. SentOf t (send_from results (drop n (b ∷ bs)) (wire ++ take n (b ∷ bs))))
        (step_wire n (b ∷ bs) wire)
        (send_from-SentOf results (drop n (b ∷ bs)) (wire ++ take n (b ∷ bs))))
]

tls_write_from-SentOf :
    (results : List TlsResult) (bytes wire : Bytes)
    → SentOf (wire ++ bytes) (tls_write_from results bytes wire)
unfolding tls_write_from
tls_write_from-SentOf results [] wire = inl (refl, sym (append-nil wire))
tls_write_from-SentOf [] (b ∷ bs) wire = inr (refl, b ∷ bs, refl, omega arith)
tls_write_from-SentOf (again ∷ results) (b ∷ bs) wire = tls_write_from-SentOf results (b ∷ bs) wire
tls_write_from-SentOf (broken ∷ results) (b ∷ bs) wire = inr (refl, b ∷ bs, refl, omega arith)
tls_write_from-SentOf (moved n ∷ results) (b ∷ bs) wire = elim (Bool-cases (n == 0)) [
  | inl stop ↦ rw stop (inr (refl, b ∷ bs, refl, omega arith))
  | inr more ↦ rw more (
      subst (λ t. SentOf t (tls_write_from results (drop n (b ∷ bs)) (wire ++ take n (b ∷ bs))))
        (step_wire n (b ∷ bs) wire)
        (tls_write_from-SentOf results (drop n (b ∷ bs)) (wire ++ take n (b ∷ bs))))
]

send_from_finishes :
    (results : List ℕ) (bytes wire : Bytes)
    → All (λ n. 0 < n) results
    → length bytes ≤ length results
    → (send_from results bytes wire).whole ≡ true
unfolding send_from
send_from_finishes results [] wire a h = refl
send_from_finishes [] (b ∷ bs) wire a h = absurd (omega arith)
send_from_finishes (n ∷ results) (b ∷ bs) wire a h =
    let some_sent : (n == 0) ≡ false = ground (arith, a.0) in
    rw some_sent (
      send_from_finishes results (drop n (b ∷ bs)) (wire ++ take n (b ∷ bs)) a.1
        (omega (arith, a.0, length-drop n (b ∷ bs))))

-- While each `send` takes at least one byte, `send_all` ends after at most as many calls as there are
-- bytes, and has sent exactly the data.
pub send_all_finishes :
    (results : List ℕ) (bytes : Bytes)
    → All (λ n. 0 < n) results
    → length bytes ≤ length results
    → ((send_all results bytes).whole ≡ true) × ((send_all results bytes).wire ≡ bytes)
unfolding send_all
send_all_finishes results bytes a h =
    let through = send_from_finishes results bytes [] a h in
    elim (send_from-SentOf results bytes []) [
      | inl (w, e) ↦ (through, e)
      | inr (w, rest, e, some_left) ↦ ground (arith, through, w)
    ]

-- A POST without a status, or one whose whole request is with the peer.
abbrev pub Delivers : Bytes → Posted → Type 0
Delivers request posted = (posted.status ≡ none) ⊎ (posted.wire ≡ request)

conclude-Delivers :
    (request response wire : Bytes) (resp_size : ℕ)
    → wire ≡ request
    → Delivers request (conclude response resp_size wire)
unfolding conclude
conclude-Delivers request response wire resp_size e =
    if_intro (Delivers request) (length response == 0) _ _ (λ _. inl refl) (λ _. inr e)

sent-Delivers :
    (request response : Bytes) (resp_size : ℕ) (sent : Sent)
    → SentOf request sent
    → Delivers request
        (if sent.whole then conclude response resp_size sent.wire else failed sent.wire)
sent-Delivers request response resp_size sent (inl (w, e)) =
    rw w (conclude-Delivers request response sent.wire resp_size e)
sent-Delivers request response resp_size sent (inr (w, rest, e, some_left)) = rw w (inl refl)

-- A step that may be left out.
gate :
    (request : Bytes) (b : Bool) (posted : Posted)
    → Delivers request posted
    → Delivers request (if b then posted else failed [])
gate request true posted d = d
gate request false posted d = inl refl

gate_out :
    (request : Bytes) (b : Bool) (posted : Posted)
    → Delivers request posted
    → Delivers request (if b then failed [] else posted)
gate_out request true posted d = inl refl
gate_out request false posted d = d

talk-Delivers :
    (net : Connection) (calls : List Call) (fd : ℕ) (request : Bytes) (resp_size : ℕ)
    → Delivers request (talk net calls fd request resp_size)
unfolding talk send_all
talk-Delivers net calls fd request resp_size =
    let response = receive_from (http_response_max - 1) net.chunks [] in
    elim (send_from-SentOf net.sends request []) [
      | inl (w, e) ↦
          rw w
            (conclude-Delivers request response (send_from net.sends request []).wire resp_size e)
      | inr (w, rest, e, some_left) ↦ rw w (inl refl)
    ]

exchange_on-Delivers :
    (net : Connection) (fd : Option ℕ) (calls : List Call) (request : Bytes) (resp_size : ℕ)
    → Delivers request (exchange_on net fd calls request resp_size)
unfolding exchange_on
exchange_on-Delivers net none calls request resp_size = inl refl
exchange_on-Delivers net (some fd) calls request resp_size =
    talk-Delivers net calls fd request resp_size

exchange_plain-Delivers :
    (net : Connection) (request : Bytes) (resp_size : ℕ)
    → Delivers request (exchange_plain net request resp_size)
unfolding exchange_plain
exchange_plain-Delivers net request resp_size =
    let to = connect_to net.found in exchange_on-Delivers net to.fd to.calls request resp_size

exchange_tls-Delivers :
    (tls : TlsSession) (request : Bytes) (resp_size : ℕ)
    → Delivers request (exchange_tls tls request resp_size)
unfolding exchange_tls
exchange_tls-Delivers tls request resp_size =
    let sent = tls_write_from tls.writes request [] in
    let response = tls_read_from (http_response_max - 1) tls.reads [] in
    gate request (is_ready tls)
      (if sent.whole then conclude response resp_size sent.wire else failed sent.wire)
      (sent-Delivers request response resp_size sent (tls_write_from-SentOf tls.writes request []))

-- The request that `http_post_json` makes for a scheme.
abbrev pub request_of : Bytes → Bytes → ℕ → Bytes → Bytes → Bytes → Bytes
request_of scheme host port path body api_key =
    if bytes_eq scheme (codes "https")
    then request_text path host api_key body
    else request_text path (host_and_port host port) api_key body

-- Whatever sockets and mbedTLS do, `http_post_json` reports a status only after the peer was sent the
-- request to its last byte and nothing else; in all other cases the result is -1.
pub http_post_json_delivers :
    (net : Connection) (tls : TlsSession) (scheme host : Bytes) (port : ℕ)
    (path body api_key : Bytes) (resp_size : ℕ)
    → ((http_post_json net tls scheme host port path body api_key resp_size).status ≡ none)
      ⊎ ((http_post_json net tls scheme host port path body api_key resp_size).wire
          ≡ request_of scheme host port path body api_key)
unfolding http_post_json http_post_plain http_post_tls
http_post_json_delivers net tls scheme host port path body api_key resp_size =
    elim (Bool-cases (bytes_eq scheme (codes "https"))) [
      | inl https ↦ rw https (post_tls (request_text path host api_key body))
      | inr plain ↦ rw plain (post_plain (request_text path (host_and_port host port) api_key body))
    ]
  where
    post_tls :
        (request : Bytes)
        → Delivers request (
            if leb http_request_max (length request)
            then failed []
            else exchange_tls tls request resp_size)
    post_tls request =
        gate_out request (leb http_request_max (length request)) _
          (exchange_tls-Delivers tls request resp_size)

    post_plain :
        (request : Bytes)
        → Delivers request (
            if leb http_request_max (length request)
            then failed []
            else exchange_plain net request resp_size)
    post_plain request =
        gate_out request (leb http_request_max (length request)) _
          (exchange_plain-Delivers net request resp_size)
