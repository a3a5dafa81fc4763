-- ===== src/Backend/Batches.antt =====
-- The requests with a list of src/backend_client.c: the bodies that they carry, and when they are made.
use openwrt_edge_agent.Base.{
  ℕ, zero, suc, ◌*◌, ◌++◌, ◌⊎◌, inl, inr, ap, ◌∙◌, take, length-append, length-map, ◌+◌, ◌≤◌, ◌<◌,
  ◌≡◌, refl, Bool, true, false, List, [], ◌∷◌, map, Option, none, some, arith, leb, ◌==◌,
  if◌then◌else◌, Bytes, codes, length, All, if_intro,
}
use openwrt_edge_agent.Json.{json_escape}
use openwrt_edge_agent.Json.Escape.{json_escape_safe}
use openwrt_edge_agent.DnsWindow.{DnsEvent}
use openwrt_edge_agent.Roster.{ClientEntry}
use openwrt_edge_agent.FxRing.{FxPacket}
use openwrt_edge_agent.Backend.{BackendConfig, Post, is_registered, concat, length-concat}
use openwrt_edge_agent.Backend.Batch.{
  Filled, batch_body, batch_post, dns_item, dns_head, dns_post, client_item, clients_head,
  clients_post, packet_items, forensics_post,
}
use openwrt_edge_agent.Backend.Closed.{joined, Closed, Ends, batch_body-Ends, batch_body_made}

-- A request that is not made, or one to a path with a closed body.
abbrev pub Carries : Bytes → Bytes → List Bytes → Option Post → Type 0
Carries path head items none = Unit
Carries path head items (some post) = (post.path ≡ path) × Closed head items post.body

batch_post-Carries :
    (least : ℕ) (path head : Bytes) (items : List Bytes) (body : Option Filled)
    → Ends head items body
    → Carries path head items (batch_post least path body)
unfolding batch_post
batch_post-Carries least path head items none e = tt
batch_post-Carries least path head items (some filled) (k, text, written, small) =
    if_intro (Carries path head items) (leb least filled.written) _ _
      (λ _. (refl, (k, text, small))) (λ _. tt)

gate-Carries :
    (path head : Bytes) (items : List Bytes) (b : Bool) (post : Option Post)
    → Carries path head items post
    → Carries path head items (if b then post else none)
gate-Carries path head items true post c = c
gate-Carries path head items false post c = tt

batch-Carries :
    (least margin : ℕ) (path head : Bytes) (items : List Bytes) (b : Bool)
    → Carries path head items
        (if b then batch_post least path (batch_body margin head items) else none)
batch-Carries least margin path head items b =
    gate-Carries path head items b _
      (batch_post-Carries least path head items _ (batch_body-Ends margin head items))

abbrev pub forensics_head : BackendConfig → Bytes
forensics_head cfg =
    concat (codes "{\"deviceId\":\"" ∷ cfg.device_id ∷ codes "\",\"packets\":[" ∷ [])

-- Every request with DNS queries, clients or forensic packets carries a body that is complete: its
-- head, the texts of the first items with commas between them, and the end, in less than 8192 bytes,
-- however large the items are.
pub batches_closed :
    (iso_time : ℕ → Bytes) (cfg : BackendConfig) (events : List DnsEvent)
    (clients : List ClientEntry) (packets : List FxPacket) (window_seconds : ℕ) (timestamp : Bytes)
    → Carries
        (codes "/api/dns/queries")
        (dns_head cfg window_seconds timestamp)
        (map dns_item events)
        (dns_post cfg events window_seconds timestamp)
      × Carries
          (codes "/api/clients")
          (clients_head cfg timestamp)
          (map client_item clients)
          (clients_post cfg clients timestamp)
      × Carries
          (codes "/api/forensics/packets/batch")
          (forensics_head cfg)
          (packet_items iso_time packets)
          (forensics_post iso_time cfg packets)
unfolding dns_post clients_post forensics_post
batches_closed iso_time cfg events clients packets window_seconds timestamp = (
  batch-Carries 0 _ _ (dns_head cfg window_seconds timestamp) (map dns_item events) _,
  batch-Carries 0 _ _ (clients_head cfg timestamp) (map client_item clients) _,
  batch-Carries 1 _ _ (forensics_head cfg) (packet_items iso_time packets) _,
)

batch_post_any :
    (path : Bytes) (filled : Filled)
    → batch_post 0 path (some filled) ≡ some (record { path = path; body = filled.text })
unfolding batch_post
batch_post_any path filled = let any : leb 0 filled.written ≡ true = ground arith in rw any refl

client_item_small : (client : ClientEntry) → length (client_item client) + 3 ≤ 256
unfolding client_item
client_item_small client =
    let flag : length (if client.online then codes "true" else codes "false") ≤ 5 =
      if_intro (λ l. length l ≤ 5) client.online (codes "true") (codes "false") (λ _. omega arith)
        (λ _. omega arith) in
    omega (
      arith,
      flag,
      length-concat (
          codes "{\"ip\":\""
          ∷ json_escape 32 client.ip
          ∷ codes "\",\"mac\":\""
          ∷ json_escape 48 client.mac
          ∷ codes "\",\"name\":\""
          ∷ json_escape 128 client.name
          ∷ codes "\",\"online\":"
          ∷ (if client.online then codes "true" else codes "false")
          ∷ codes "}"
          ∷ []),
      (json_escape_safe 32 client.ip [] (omega arith)).0,
      (json_escape_safe 48 client.mac [] (omega arith)).0,
      (json_escape_safe 128 client.name [] (omega arith)).0,
    )

client_items_small :
    (clients : List ClientEntry) → All (λ item. length item + 3 ≤ 256) (map client_item clients)
client_items_small [] = tt
client_items_small (c ∷ clients) = (client_item_small c, client_items_small clients)

clients_head_small :
    (cfg : BackendConfig) (timestamp : Bytes)
    → length cfg.device_id ≤ 63
    → length timestamp ≤ 31
    → length (clients_head cfg timestamp) ≤ 140
unfolding clients_head
clients_head_small cfg timestamp id ts = omega (
  arith,
  id,
  ts,
  length-concat (
      codes "{\"deviceId\":\""
      ∷ cfg.device_id
      ∷ codes "\",\"timestamp\":\""
      ∷ timestamp
      ∷ codes "\",\"clients\":["
      ∷ []),
)

-- Clients with their commas.
length-joined :
    (n k : ℕ) (items : List Bytes)
    → All (λ item. length item + 3 ≤ 256) items
    → length (joined n (take k items)) ≤ 254 * k
unfolding joined
length-joined n zero items small = omega arith
length-joined n (suc k) [] small = omega arith
length-joined n (suc k) (item ∷ items) small =
    let comma : length (if n == 0 then [] else codes ",") ≤ 1 =
      if_intro (λ l. length l ≤ 1) (n == 0) [] (codes ",") (λ _. omega arith) (λ _. omega arith) in
    omega (
      arith,
      comma,
      small.0,
      length-joined (suc n) k items small.1,
      length-append (if n == 0 then [] else codes ",") (item ++ joined (suc n) (take k items)),
      length-append item (joined (suc n) (take k items)),
    )

-- The body of all clients, or of as many as fill it.
abbrev pub TellsClients : BackendConfig → Bytes → List ClientEntry → Bytes → Type 0
TellsClients cfg timestamp clients body =
    (k : ℕ) × (body
      ≡ clients_head cfg timestamp ++ (joined 0 (take k (map client_item clients)) ++ codes "]}"))
    × (length body < 8192)
    × ((length clients ≤ k) ⊎ ((31 ≤ k) × (7938 ≤ length body)))

-- A registered agent makes a request of every roster that is not empty, with an id and a time that fit
-- their arrays, whatever is in the names and addresses. Its body holds all clients, or the first ones,
-- of which there are 31 or more, as many as fill it up to its last 254 bytes.
pub clients_sent :
    (cfg : BackendConfig) (clients : List ClientEntry) (timestamp : Bytes)
    → is_registered cfg ≡ true
    → length cfg.device_id ≤ 63
    → length timestamp ≤ 31
    → 0 < length clients
    → (post : Post) × (clients_post cfg clients timestamp ≡ some post)
      × (post.path ≡ codes "/api/clients")
      × TellsClients cfg timestamp clients post.body
unfolding clients_post
clients_sent cfg clients timestamp r id ts some_clients =
    let items = map client_item clients in
    let head = clients_head cfg timestamp in
    let small = client_items_small clients in
    let short = clients_head_small cfg timestamp id ts in
    let (filled, e, (k, text, fits, ends)) =
      batch_body_made 256 head items small (omega (arith, short)) in
    let there : (length clients == 0) ≡ false = ground arith in
    let size : length filled.text ≡ length head + (length (joined 0 (take k items)) + 2) =
      ap length text
      ∙ omega (
        arith,
        length-append head (joined 0 (take k items) ++ codes "]}"),
        length-append (joined 0 (take k items)) (codes "]}"),
      ) in
    (
      record { path = codes "/api/clients"; body = filled.text },
      rw (r, there, e) (batch_post_any (codes "/api/clients") filled),
      refl,
      (
        k,
        text,
        fits,
        elim ends [
          | inl all ↦ inl (omega (arith, all, length-map client_item clients))
          | inr full ↦
              inr (
                omega (arith, full, size, short, length-joined 0 k items small),
                omega (arith, full),
              )
        ],
      ),
    )
