-- ===== src/FlowTable/Tally.antt =====
-- The flow table of src/flow_table.c after a window's packets, against a count of those packets.
use openwrt_edge_agent.Base.{
  ℕ, ◌+◌, ◌%◌, ◌^◌, ◌≡◌, refl, sym, ap, ◌∙◌, inl, inr, true, false, List, [], ◌∷◌, ◌++◌, Option,
  none, some, arith, ◌==◌, if◌then◌else◌, All, append_assoc, append-nil, Bool-cases, Option-cases,
  &&-eq-true, ==→eq, bytes_eq_iff, take_all,
}
use openwrt_edge_agent.Packet.{ParsedPacket}
use openwrt_edge_agent.Packet
use openwrt_edge_agent.FlowTable.{FlowEntry, FlowTable, init, count_packet, new_entry, add}
use openwrt_edge_agent.FlowTable.Flows.{lookup, same_flow}
use openwrt_edge_agent.FlowTable.Add.{
  IsValid, add-IsValid, lookup-add, lookup-same_flow, add-no_overflow, overflow-add,
}

-- `flow_table_add` for each packet in turn
unfoldable pub add_all : FlowTable → List ParsedPacket → FlowTable
add_all table [] = table
add_all table (p ∷ ps) = add_all (add table p) ps

-- The packets of one packet's flow in a list.
unfoldable pub flow_packets : ParsedPacket → List ParsedPacket → ℕ
flow_packets q [] = 0
flow_packets q (p ∷ ps) = (if same_flow p q then 1 else 0) + flow_packets q ps

-- Their bytes.
unfoldable pub flow_bytes : ParsedPacket → List ParsedPacket → ℕ
flow_bytes q [] = 0
flow_bytes q (p ∷ ps) = (if same_flow p q then p.packet_size else 0) + flow_bytes q ps

-- The entry that the packets of a window make for a flow.
unfoldable pub expected : ParsedPacket → List ParsedPacket → Option FlowEntry
expected q ps =
    if flow_packets q ps == 0
    then none
    else some (record {
      src_ip = q.src_ip;
      dst_ip = q.dst_ip;
      src_port = q.src_port;
      dst_port = q.dst_port;
      protocol = q.protocol;
      packets = flow_packets q ps % 2 ^ 64;
      bytes = flow_bytes q ps % 2 ^ 64;
    })

flow_packets-append :
    (q p : ParsedPacket) (ps : List ParsedPacket)
    → flow_packets q (ps ++ (p ∷ [])) ≡ flow_packets q ps + (if same_flow p q then 1 else 0)
unfolding flow_packets
flow_packets-append q p [] = omega arith
flow_packets-append q p (x ∷ ps) = omega (arith, flow_packets-append q p ps)

flow_bytes-append :
    (q p : ParsedPacket) (ps : List ParsedPacket)
    → flow_bytes q (ps ++ (p ∷ [])) ≡ flow_bytes q ps + (if same_flow p q then p.packet_size else 0)
unfolding flow_bytes
flow_bytes-append q p [] = omega arith
flow_bytes-append q p (x ∷ ps) = omega (arith, flow_bytes-append q p ps)

flow_bytes_none :
    (q : ParsedPacket) (ps : List ParsedPacket) → flow_packets q ps ≡ 0 → flow_bytes q ps ≡ 0
unfolding flow_packets flow_bytes
flow_bytes_none q [] h = refl
flow_bytes_none q (x ∷ ps) h = ground (arith, flow_bytes_none q ps)

expected-none :
    (q : ParsedPacket) (hist : List ParsedPacket) → expected q hist ≡ none → flow_packets q hist ≡ 0
unfolding expected
expected-none q hist h = ground arith

module _ (p q : ParsedPacket) (vp : Packet.IsValid p) where
  same_flow-agree :
      same_flow p q ≡ true
      → (p.protocol ≡ q.protocol)
        × (p.src_port ≡ q.src_port)
        × (p.dst_port ≡ q.dst_port)
        × (p.src_ip ≡ q.src_ip)
        × (p.dst_ip ≡ q.dst_ip)
  unfolding same_flow
  same_flow-agree h =
      let (a, r) = &&-eq-true _ _ h in
      let (b, r') = &&-eq-true _ _ r in
      let (c, r'') = &&-eq-true _ _ r' in
      let (s, d) = &&-eq-true _ _ r'' in
      (
        ==→eq _ _ a,
        ==→eq _ _ b,
        ==→eq _ _ c,
        (bytes_eq_iff p.src_ip q.src_ip).0 s,
        (bytes_eq_iff p.dst_ip q.dst_ip).0 d,
      )

  -- The first packet of a flow makes the entry that is expected.
  expected_first :
      (hist : List ParsedPacket)
      → same_flow p q ≡ true
      → flow_packets q hist ≡ 0
      → some (new_entry p) ≡ expected q (hist ++ (p ∷ []))
  unfolding expected new_entry
  expected_first hist s h =
      let (a, b, c, d, e) = same_flow-agree s in
      ground (
        arith,
        a,
        b,
        c,
        d,
        e,
        take_all 15 p.src_ip vp.src_ip_fits,
        take_all 15 p.dst_ip vp.dst_ip_fits,
        flow_packets-append q p hist,
        flow_bytes-append q p hist,
        flow_bytes_none q hist h,
      )

  -- A later packet brings the entry up to what is expected.
  expected_later :
      (hist : List ParsedPacket) (e : FlowEntry)
      → same_flow p q ≡ true
      → expected q hist ≡ some e
      → some (count_packet e p) ≡ expected q (hist ++ (p ∷ []))
  unfolding expected count_packet
  expected_later hist e s h =
      ground (arith, flow_packets-append q p hist, flow_bytes-append q p hist)

  expected_other :
      (hist : List ParsedPacket)
      → same_flow p q ≡ false
      → expected q hist ≡ expected q (hist ++ (p ∷ []))
  unfolding expected
  expected_other hist s = ground (arith, flow_packets-append q p hist, flow_bytes-append q p hist)

  tally_step :
      {table : FlowTable} (hist : List ParsedPacket)
      → IsValid table
      → Packet.IsValid q
      → lookup q table.entries ≡ expected q hist
      → (add table p).overflow_logged ≡ false
      → lookup q (add table p).entries ≡ expected q (hist ++ (p ∷ []))
  tally_step {table} hist v vq e calm = elim (Bool-cases (same_flow p q)) [
    | inr other ↦ lookup-add v vp vq ∙ rw other (e ∙ expected_other hist other)
    | inl same ↦ elim (Option-cases (lookup q table.entries)) [
      | inl n ↦
          let absent : lookup p table.entries ≡ none =
            sym (lookup-same_flow table.entries vp vq v.fit same) ∙ n in
          lookup-add v vp vq
          ∙ rw (same, n, add-no_overflow v vp absent calm)
              (expected_first hist same (expected-none q hist (sym e ∙ n)))
      | inr (x, found) ↦
          lookup-add v vp vq ∙ rw (same, found) (expected_later hist x same (sym e ∙ found))
    ]
  ]

overflow-add_all :
    (ps : List ParsedPacket) (table : FlowTable)
    → (add_all table ps).overflow_logged ≡ false
    → table.overflow_logged ≡ false
unfolding add_all
overflow-add_all [] table h = h
overflow-add_all (p ∷ ps) table h = overflow-add table p (overflow-add_all ps (add table p) h)

tally_from :
    {q : ParsedPacket} (ps hist : List ParsedPacket) {table : FlowTable}
    → Packet.IsValid q
    → All Packet.IsValid ps
    → IsValid table
    → lookup q table.entries ≡ expected q hist
    → (add_all table ps).overflow_logged ≡ false
    → lookup q (add_all table ps).entries ≡ expected q (hist ++ ps)
unfolding add_all
tally_from {q} [] hist vq vps v e calm = e ∙ ap (expected q) (sym (append-nil hist))
tally_from {q} (p ∷ ps) hist {table} vq vps v e calm =
    tally_from ps (hist ++ (p ∷ [])) vq vps.1 (add-IsValid v vps.0)
      (tally_step p q vps.0 hist v vq e (overflow-add_all ps (add table p) calm)) calm
    ∙ ap (expected q) (append_assoc hist (p ∷ []) ps)

pub init-IsValid : IsValid init
unfolding init
init-IsValid = record { fit = tt; bounded = omega arith; distinct = tt }

lookup-init : (q : ParsedPacket) → lookup q init.entries ≡ expected q []
unfolding init lookup expected flow_packets
lookup-init q = refl

-- After a window of packets whose strings fit their arrays, and if the table did not overflow, a
-- flow has an entry exactly if one of the packets was of it, and the entry holds the number of its
-- packets and of their bytes, each modulo 2 ^ 64.
pub tally :
    {q : ParsedPacket} (ps : List ParsedPacket)
    → Packet.IsValid q
    → All Packet.IsValid ps
    → (add_all init ps).overflow_logged ≡ false
    → lookup q (add_all init ps).entries ≡ expected q ps
tally {q} ps vq vps calm = tally_from ps [] vq vps init-IsValid (lookup-init q) calm
