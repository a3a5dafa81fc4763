-- ===== src/FlowTable/Tests.antt =====
-- Two hosts' packets through the table of src/flow_table.c.
use openwrt_edge_agent.Base.{
  ◌≤◌, ◌≡◌, refl, ◌⊎◌, inl, inr, true, false, List, [], ◌∷◌, arith, All, ◌==◌, copy_into,
  bytes_eq_refl, ◌∙◌,
}
use openwrt_edge_agent.Packet
use openwrt_edge_agent.Packet.Samples.{
  udp_packet, tcp_packet, udp_packet-IsValid, tcp_packet-IsValid,
}
use openwrt_edge_agent.FlowTable.{FlowEntry, FlowTable, init, flow_matches, add, new_entry, top}
use openwrt_edge_agent.FlowTable.Flows.{lookup}
use openwrt_edge_agent.FlowTable.Add.{IsValid, add-IsValid}
use openwrt_edge_agent.FlowTable.Tally.{add_all, expected, init-IsValid, tally}
use openwrt_edge_agent.FlowTable.Top.{In, IsTop, top-IsTop}
use openwrt_edge_agent.FlowTable.Fanout.{scan_fanout, slot_of}
use openwrt_edge_agent.FlowTable.Fanout.Count.{endpoints, same_endpoint, NoCollision}
use openwrt_edge_agent.FlowTable.Fanout.Best.{scan_fanout_sound, scan_fanout-exact}

abbrev one_in : FlowTable
one_in = add init udp_packet

one_in-IsValid : IsValid one_in
one_in-IsValid = add-IsValid init-IsValid udp_packet-IsValid

abbrev packets : List Packet.ParsedPacket
packets = udp_packet ∷ tcp_packet ∷ udp_packet ∷ []

tally_example : lookup udp_packet (add_all init packets).entries ≡ expected udp_packet packets
unfolding add_all add init flow_matches new_entry
tally_example =
    tally packets udp_packet-IsValid
      (udp_packet-IsValid, (tcp_packet-IsValid, (udp_packet-IsValid, tt))) refl

abbrev table : FlowTable
table = record {
  entries = new_entry udp_packet ∷ new_entry tcp_packet ∷ [];
  overflow_logged = false;
}

top-IsTop_example : IsTop 17 table.entries (top table 17)
top-IsTop_example = top-IsTop table 17

scan_fanout_sound_example :
    ((scan_fanout table [] 16 [] 16).best ≡ 0)
    ⊎ ((e : FlowEntry) × In e table.entries
        × ((scan_fanout table [] 16 [] 16).out_src_ip ≡ copy_into 16 e.src_ip)
        × ((scan_fanout table [] 16 [] 16).best ≤ endpoints e table.entries))
scan_fanout_sound_example = scan_fanout_sound table [] [] 16 16 (omega arith)

slots : (slot_of (new_entry udp_packet) == slot_of (new_entry tcp_packet)) ≡ false
unfolding slot_of new_entry
slots = refl

same_endpoint_refl : (e : FlowEntry) → same_endpoint e e ≡ true
unfolding same_endpoint
same_endpoint_refl e = ground (arith, bytes_eq_refl e.dst_ip)

table-NoCollision : NoCollision table.entries
table-NoCollision g f (inl a) (inl b) e =
    (λ i. same_endpoint (a i) (b i)) ∙ same_endpoint_refl (new_entry udp_packet)
table-NoCollision g f (inl a) (inr (inl b)) e = ground (arith, a, b, slots)
table-NoCollision g f (inr (inl a)) (inl b) e = ground (arith, a, b, slots)
table-NoCollision g f (inr (inl a)) (inr (inl b)) e =
    (λ i. same_endpoint (a i) (b i)) ∙ same_endpoint_refl (new_entry tcp_packet)
table-NoCollision g f (inl a) (inr (inr x)) e = absurd x
table-NoCollision g f (inr (inl a)) (inr (inr x)) e = absurd x
table-NoCollision g f (inr (inr x)) _ e = absurd x

scan_fanout-exact_example :
    All (λ e. endpoints e table.entries ≤ (scan_fanout table [] 16 [] 16).best) table.entries
    × (((scan_fanout table [] 16 [] 16).best ≡ 0)
        ⊎ ((e : FlowEntry) × In e table.entries
            × ((scan_fanout table [] 16 [] 16).best ≡ endpoints e table.entries)))
scan_fanout-exact_example = scan_fanout-exact table [] [] 16 16 table-NoCollision
