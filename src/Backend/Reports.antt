-- ===== src/Backend/Reports.antt =====
-- The bodies with a list of src/backend_client.c as texts of JSON.
use mathlib.Core.Path.{subst}
use openwrt_edge_agent.Base.{
  ℕ, zero, suc, ◌<◌, ◌^◌, ◌≡◌, inl, inr, refl, sym, ap, ◌∙◌, true, false, Bool-cases, Option, none,
  some, List, [], ◌∷◌, ◌++◌, append_assoc, append-nil, arith, ◌==◌, if◌then◌else◌, Bytes, codes,
  length, take, All, map,
}
use openwrt_edge_agent.Packet.{proto_tcp, proto_udp}
use openwrt_edge_agent.Json.Reader.{move}
use openwrt_edge_agent.Json.Value.{
  JsonValue, text, number, truth, object_of, members_of, tokens_of_members, quoted, items_of, Token,
  mark, tokens_of, tokens_of_items,
}
use openwrt_edge_agent.Json.Lexer.{between, next, feed, tokens, at_end, Feeds, feed_then}
use openwrt_edge_agent.Json.Pieces.{Plain, heard}
use openwrt_edge_agent.DnsWindow.{DnsEvent}
use openwrt_edge_agent.Roster.{ClientEntry}
use openwrt_edge_agent.FxRing.{FxPacket}
use openwrt_edge_agent.Backend.{Post}
use openwrt_edge_agent.Backend.Batch.{body_max, dns_item, client_item, packet_item, packet_items}
use openwrt_edge_agent.Backend.Closed.{joined, Closed}
use openwrt_edge_agent.Backend.Batches.{Carries}
use openwrt_edge_agent.Backend.Format.{Piece, literal, given, printed, escaped_into, through-Feeds}

-- A text with the tokens of a value, which ends with a mark.
abbrev pub Spelled : Bytes → JsonValue → Type 0
Spelled s v = Feeds between s (tokens_of v) between

abbrev pub Spells : List Bytes → List JsonValue → Type 0
Spells [] [] = Unit
Spells (s ∷ texts) (v ∷ values) = Spelled s v × Spells texts values
Spells texts values = ⊥

take-Spells :
    (k : ℕ) (texts : List Bytes) (values : List JsonValue)
    → Spells texts values
    → Spells (take k texts) (take k values)
take-Spells zero texts values h = tt
take-Spells (suc k) [] [] h = tt
take-Spells (suc k) [] (v ∷ values) h = elim h [ ]
take-Spells (suc k) (s ∷ texts) [] h = elim h [ ]
take-Spells (suc k) (s ∷ texts) (v ∷ values) h = (h.0, take-Spells k texts values h.1)

comma_read :
    (n : ℕ)
    → Feeds between
        (if n == 0 then [] else codes ",")
        (if n == 0 then [] else mark b',' ∷ [])
        between
unfolding feed next
comma_read n = elim (Bool-cases (n == 0)) [ inl h ↦ rw h refl | inr h ↦ rw h refl ]

joined-tokens :
    (n : ℕ) (texts : List Bytes) (values : List JsonValue)
    → Spells texts values
    → Feeds between (joined n texts) (tokens_of_items (n == 0) (items_of values)) between
unfolding joined feed tokens_of
joined-tokens n [] [] h = refl
joined-tokens n [] (v ∷ values) h = elim h [ ]
joined-tokens n (s ∷ texts) [] h = elim h [ ]
joined-tokens n (s ∷ texts) (v ∷ values) h =
    let later : (suc n == 0) ≡ false = ground arith in
    feed_then between (if n == 0 then [] else codes ",") (s ++ joined (suc n) texts) (comma_read n)
      (feed_then between s (joined (suc n) texts) h.0 (
        subst
          (λ b. Feeds between (joined (suc n) texts) (tokens_of_items b (items_of values)) between)
          later (joined-tokens (suc n) texts values h.1)))

pub array_end :
    (ts : List Token) (m n : ℕ)
    → ts ++ (mark m ∷ mark n ∷ []) ≡ ((ts ++ (mark m ∷ [])) ++ []) ++ (mark n ∷ [])
array_end ts m n = sym (
    ap (λ l. l ++ (mark n ∷ [])) (append-nil (ts ++ (mark m ∷ [])))
    ∙ append_assoc ts (mark m ∷ []) (mark n ∷ []))

end_read : Feeds between (codes "]}") (mark b']' ∷ mark b'}' ∷ []) between
unfolding feed next
end_read = refl

-- A body that is complete reads as the head, the values of its items, and the end.
Closed-tokens :
    (head : Bytes) (texts : List Bytes) (values : List JsonValue) (body : Bytes) (ts : List Token)
    → Feeds between head ts between
    → Spells texts values
    → Closed head texts body
    → (k : ℕ) × (tokens body
        ≡ some (
            ts
            ++ (tokens_of_items true (items_of (take k values)) ++ (mark b']' ∷ mark b'}' ∷ []))))
unfolding tokens
Closed-tokens head texts values body ts h spells (k, e, small) =
    let some_texts = joined 0 (take k texts) in
    let items =
      joined-tokens 0 (take k texts) (take k values) (take-Spells k texts values spells) in
    (
      k,
      ap tokens e
          ∙ ap at_end (
              feed_then between head (some_texts ++ codes "]}") h
                (feed_then between some_texts (codes "]}") items end_read)),
    )

-- A request that is not made, or one to a path whose body is less than 8192 bytes and reads as a value
-- with the first of some others in it.
abbrev pub Reports : Bytes → (List JsonValue → JsonValue) → List JsonValue → Option Post → Type 0
Reports path whole values none = Unit
Reports path whole values (some post) =
    (post.path ≡ path)
    × (length post.body < body_max)
    × (k : ℕ) × (tokens post.body ≡ some (tokens_of (whole (take k values))))

-- An object up to its last member, which is a list.
abbrev pub opening : List (Bytes × JsonValue) → Bytes → List Token
opening members key =
    mark b'{'
    ∷ (tokens_of_members true (members_of members)
        ++ (mark b',' ∷ quoted key ∷ mark b':' ∷ mark b'[' ∷ []))

abbrev pub Wraps : List Token → (List JsonValue → JsonValue) → Type 0
Wraps ts whole =
    (values : List JsonValue)
    → ts ++ (tokens_of_items true (items_of values) ++ (mark b']' ∷ mark b'}' ∷ []))
      ≡ tokens_of (whole values)

pub Carries-Reports :
    (path head : Bytes) (texts : List Bytes) (values : List JsonValue) (ts : List Token)
    (whole : List JsonValue → JsonValue) (post : Option Post)
    → Feeds between head ts between
    → Wraps ts whole
    → Spells texts values
    → Carries path head texts post
    → Reports path whole values post
Carries-Reports path head texts values ts whole none h w s c = tt
Carries-Reports path head texts values ts whole (some post) h w s (e, c) =
    let (k, r) = Closed-tokens head texts values post.body ts h s c in
    (e, c.2, k, r ∙ ap some (w (take k values)))

abbrev pub event_object : DnsEvent → JsonValue
event_object event = object_of (
    (codes "clientIp", text (heard 32 event.client_ip))
    ∷ (codes "domain", text (heard 512 event.domain))
    ∷ (codes "count", number event.count)
    ∷ [])

abbrev pub client_object : ClientEntry → JsonValue
client_object client = object_of (
    (codes "ip", text (heard 32 client.ip))
    ∷ (codes "mac", text (heard 48 client.mac))
    ∷ (codes "name", text (heard 128 client.name))
    ∷ (codes "online", truth client.online)
    ∷ [])

pub event_read :
    (event : DnsEvent) → event.count < 2 ^ 64 → Spelled (dns_item event) (event_object event)
unfolding feed next move tokens_of dns_item
event_read event h =
    through-Feeds
      (literal (codes "{\"clientIp\":\"")
        ∷ escaped_into 32 (omega arith) event.client_ip
        ∷ literal (codes "\",\"domain\":\"")
        ∷ escaped_into 512 (omega arith) event.domain
        ∷ literal (codes "\",\"count\":")
        ∷ printed event.count h
        ∷ literal (codes "}")
        ∷ [])
      between _ between refl

pub All-read :
    {A : Type 0} (P : A → Type 0) (f : A → Bytes) (g : A → JsonValue)
    → ((x : A) → P x → Spelled (f x) (g x))
    → (xs : List A) → All P xs
    → Spells (map f xs) (map g xs)
All-read P f g read [] h = tt
All-read P f g read (x ∷ xs) h = (read x h.0, All-read P f g read xs h.1)

abbrev client_pieces : ClientEntry → Bytes → List Piece
client_pieces client flag =
    literal (codes "{\"ip\":\"")
    ∷ escaped_into 32 (omega arith) client.ip
    ∷ literal (codes "\",\"mac\":\"")
    ∷ escaped_into 48 (omega arith) client.mac
    ∷ literal (codes "\",\"name\":\"")
    ∷ escaped_into 128 (omega arith) client.name
    ∷ literal (codes "\",\"online\":")
    ∷ literal flag
    ∷ literal (codes "}")
    ∷ []

client_read : (client : ClientEntry) → Spelled (client_item client) (client_object client)
unfolding feed next move tokens_of client_item
client_read client = elim (Bool-cases client.online) [
  | inl online ↦
      rw online (through-Feeds (client_pieces client (codes "true")) between _ between refl)
  | inr offline ↦
      rw offline (through-Feeds (client_pieces client (codes "false")) between _ between refl)
]

pub clients-Spells :
    (clients : List ClientEntry) → Spells (map client_item clients) (map client_object clients)
clients-Spells [] = tt
clients-Spells (client ∷ clients) = (client_read client, clients-Spells clients)

abbrev pub SizedPacket : FxPacket → Type 0
SizedPacket packet =
    (packet.src_port < 2 ^ 64) × (packet.dst_port < 2 ^ 64) × (packet.size < 2 ^ 64)

module _ (iso_time : ℕ → Bytes) where
  abbrev pub packet_object : Bytes → FxPacket → JsonValue
  packet_object proto packet = object_of (
      (codes "timestamp", text (iso_time packet.ts))
      ∷ (codes "protocol", text proto)
      ∷ (codes "sourceIp", text (heard 32 packet.src_ip))
      ∷ (codes "destinationIp", text (heard 32 packet.dst_ip))
      ∷ (codes "sourcePort", number packet.src_port)
      ∷ (codes "destinationPort", number packet.dst_port)
      ∷ (codes "packetSize", number packet.size)
      ∷ [])

  -- those of TCP and UDP
  abbrev pub packet_objects : List FxPacket → List JsonValue
  packet_objects [] = []
  packet_objects (packet ∷ packets) =
      if packet.protocol == proto_tcp
      then packet_object (codes "TCP") packet ∷ packet_objects packets
      else if packet.protocol == proto_udp
      then packet_object (codes "UDP") packet ∷ packet_objects packets
      else packet_objects packets

  module _ (plain_time : (t : ℕ) → Plain (iso_time t)) where
    packet_read :
        (proto : Bytes) (packet : FxPacket)
        → Plain proto
        → SizedPacket packet
        → Spelled (packet_item iso_time proto packet) (packet_object proto packet)
    unfolding feed next move tokens_of packet_item
    packet_read proto packet h (src, dst, size) =
        through-Feeds
          (literal (codes "{\"timestamp\":\"")
            ∷ given (iso_time packet.ts) (plain_time packet.ts)
            ∷ literal (codes "\",\"protocol\":\"")
            ∷ given proto h
            ∷ literal (codes "\",\"sourceIp\":\"")
            ∷ escaped_into 32 (omega arith) packet.src_ip
            ∷ literal (codes "\",\"destinationIp\":\"")
            ∷ escaped_into 32 (omega arith) packet.dst_ip
            ∷ literal (codes "\",\"sourcePort\":")
            ∷ printed packet.src_port src
            ∷ literal (codes ",\"destinationPort\":")
            ∷ printed packet.dst_port dst
            ∷ literal (codes ",\"packetSize\":")
            ∷ printed packet.size size
            ∷ literal (codes "}")
            ∷ [])
          between _ between refl

    pub packets-Spells :
        (packets : List FxPacket)
        → All SizedPacket packets
        → Spells (packet_items iso_time packets) (packet_objects packets)
    unfolding packet_items
    packets-Spells [] h = tt
    packets-Spells (packet ∷ packets) h =
        let rest = packets-Spells packets h.1 in
        elim (Bool-cases (packet.protocol == proto_tcp)) [
          | inl tcp ↦ rw tcp (packet_read (codes "TCP") packet (refl, (refl, (refl, tt))) h.0, rest)
          | inr other ↦ elim (Bool-cases (packet.protocol == proto_udp)) [
            | inl udp ↦
                rw (other, udp)
                  (packet_read (codes "UDP") packet (refl, (refl, (refl, tt))) h.0, rest)
            | inr neither ↦ rw (other, neither) rest
          ]
        ]
