-- ===== src/MainLoop/Holds.antt =====
-- What the tables of the capture loop of src/main.c hold after some packets.
use mathlib.Core.List.{map-append}
use openwrt_edge_agent.Base.{
  ℕ, ◌≡◌, refl, sym, ap, ◌∙◌, inl, inr, List, [], ◌∷◌, ◌++◌, map, append_assoc, append-nil,
  if◌then◌else◌, c_str, Bool-cases,
}
use openwrt_edge_agent.Packet.{ParsedPacket}
use openwrt_edge_agent.FlowTable
use openwrt_edge_agent.FlowTable.Tally as Flows
use openwrt_edge_agent.DnsWindow
use openwrt_edge_agent.DnsWindow.Tally as Queries
use openwrt_edge_agent.DnsWindow.Tally.{Query}
use openwrt_edge_agent.PacketWindow
use openwrt_edge_agent.PacketWindow.Rolling as Window
use openwrt_edge_agent.PacketWindow.Rolling.{Arrival}
use openwrt_edge_agent.MainLoop.Loop.{Agent, agent_init, take_in, next_window}

-- The packets, without their times.
abbrev pub packets : List Arrival → List ParsedPacket
packets = map (λ arrival. arrival.0)

-- The DNS queries among packets.
abbrev pub queries : List ParsedPacket → List Query
queries [] = []
queries (p ∷ ps) = if p.is_dns_query then (p.src_ip, c_str p.dns_qname) ∷ queries ps else queries ps

-- The tables hold what these packets make, and the packet window what all of them make.
abbrev pub Holds : Agent → List Arrival → List Arrival → Type 0
Holds agent before ps =
    (agent.flows ≡ Flows.add_all FlowTable.init (packets ps))
    × (agent.dns ≡ Queries.add_all DnsWindow.init (queries (packets ps)))
    × (agent.pkt_window ≡ Window.push_all PacketWindow.init (before ++ ps))

flows-snoc :
    (ps : List ParsedPacket) (p : ParsedPacket) (t : FlowTable.FlowTable)
    → FlowTable.add (Flows.add_all t ps) p ≡ Flows.add_all t (ps ++ (p ∷ []))
unfolding Flows.add_all
flows-snoc [] p t = refl
flows-snoc (x ∷ ps) p t = flows-snoc ps p (FlowTable.add t x)

queries-snoc :
    (ps : List ParsedPacket) (p : ParsedPacket) (w : DnsWindow.DnsWindow)
    → (let held = Queries.add_all w (queries ps) in
        if p.is_dns_query then DnsWindow.add held p.src_ip (c_str p.dns_qname) else held)
      ≡ Queries.add_all w (queries (ps ++ (p ∷ [])))
unfolding Queries.add_all
queries-snoc [] p w = elim (Bool-cases p.is_dns_query) [ inl h ↦ rw h refl | inr h ↦ rw h refl ]
queries-snoc (x ∷ ps) p w = elim (Bool-cases x.is_dns_query) [
  | inl h ↦ rw h (queries-snoc ps p (DnsWindow.add w x.src_ip (c_str x.dns_qname)))
  | inr h ↦ rw h (queries-snoc ps p w)
]

window-snoc :
    (ps : List Arrival) (p : ParsedPacket) (now : ℕ) (w : PacketWindow.PacketWindow)
    → PacketWindow.push (Window.push_all w ps) p now ≡ Window.push_all w (ps ++ ((p, now) ∷ []))
unfolding Window.push_all
window-snoc [] p now w = refl
window-snoc ((q, at) ∷ ps) p now w = window-snoc ps p now (PacketWindow.push w q at)

pub take_in-Holds :
    (agent : Agent) (p : ParsedPacket) (now : ℕ) (before ps : List Arrival)
    → Holds agent before ps
    → Holds (take_in agent p now) before (ps ++ ((p, now) ∷ []))
unfolding take_in
take_in-Holds agent p now before ps h =
    let last : packets ps ++ (p ∷ []) ≡ packets (ps ++ ((p, now) ∷ [])) =
      sym (map-append (λ arrival. arrival.0) ps ((p, now) ∷ [])) in
    (
      ap (λ t. FlowTable.add t p) h.0
          ∙ flows-snoc (packets ps) p FlowTable.init
          ∙ ap (Flows.add_all FlowTable.init) last,
      ap (λ w. if p.is_dns_query then DnsWindow.add w p.src_ip (c_str p.dns_qname) else w) h.1
          ∙ queries-snoc (packets ps) p DnsWindow.init
          ∙ ap (λ l. Queries.add_all DnsWindow.init (queries l)) last,
      ap (λ w. PacketWindow.push w p now) h.2
          ∙ window-snoc (before ++ ps) p now PacketWindow.init
          ∙ ap (Window.push_all PacketWindow.init) (append_assoc before ps ((p, now) ∷ [])),
    )

pub next_window-Holds :
    (agent : Agent) (now : ℕ) (before ps : List Arrival)
    → Holds agent before ps
    → Holds (next_window agent now) (before ++ ps) []
unfolding next_window Flows.add_all Queries.add_all FlowTable.reset DnsWindow.reset
next_window-Holds agent now before ps h =
    (refl, refl, h.2 ∙ ap (Window.push_all PacketWindow.init) (sym (append-nil (before ++ ps))))

pub agent_init-Holds :
    (window_start last_rules_sync : ℕ) → Holds (agent_init window_start last_rules_sync) [] []
unfolding agent_init Flows.add_all Queries.add_all Window.push_all
agent_init-Holds window_start last_rules_sync = (refl, refl, refl)
