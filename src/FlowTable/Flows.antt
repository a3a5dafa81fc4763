-- ===== src/FlowTable/Flows.antt =====
-- What src/flow_table.c counts: one entry for each flow, with the packets and bytes of that flow.
use mathlib.Core.Option
use openwrt_edge_agent.Base.{
  ℕ, ◌≤◌, ◌≡◌, refl, sym, ◌∙◌, inl, inr, Bool, true, ◌&&◌, List, [], ◌∷◌, ◌++◌, Option, none, some,
  arith, ◌==◌, if◌then◌else◌, Bytes, length, All, bytes_eq, bytes_eq_iff, take_all, Bool-cases,
  Option-cases, &&-eq-true, ==→eq, ==_comm, bytes_eq_comm, length-copy_into, ◌↔◌,
}
use openwrt_edge_agent.Packet.{ParsedPacket, IsValid}
use openwrt_edge_agent.FlowTable.{FlowEntry, flow_matches, count_packet, new_entry, count_existing}

-- The entry of a packet's flow.
unfoldable pub lookup : ParsedPacket → List FlowEntry → Option FlowEntry
lookup q [] = none
lookup q (entry ∷ entries) = if flow_matches entry q then some entry else lookup q entries

-- Two packets are of one flow: the same addresses, ports and protocol.
unfoldable pub same_flow : ParsedPacket → ParsedPacket → Bool
same_flow p q =
    p.protocol == q.protocol
    && (p.src_port == q.src_port
        && (p.dst_port == q.dst_port && (bytes_eq p.src_ip q.src_ip && bytes_eq p.dst_ip q.dst_ip)))

-- The addresses of an entry fit their arrays.
pub record EntryFits (e : FlowEntry) : Type 0 where
  pub src_fits : length e.src_ip ≤ 15
  pub dst_fits : length e.dst_ip ≤ 15

-- The comparison of a packet with the five parts of a key.
abbrev key_eq : ℕ → ℕ → ℕ → Bytes → Bytes → ParsedPacket → Bool
key_eq protocol src_port dst_port src_ip dst_ip q =
    protocol == q.protocol
    && (src_port == q.src_port
        && (dst_port == q.dst_port && (bytes_eq src_ip q.src_ip && bytes_eq dst_ip q.dst_ip)))

pub same_flow_comm : (p q : ParsedPacket) → same_flow p q ≡ same_flow q p
unfolding same_flow
same_flow_comm p q = rw (
  ==_comm p.protocol,
  ==_comm p.src_port,
  ==_comm p.dst_port,
  bytes_eq_comm p.src_ip,
  bytes_eq_comm p.dst_ip,
)

module _ (e : FlowEntry) (fits : EntryFits e) {q : ParsedPacket} (vq : IsValid q) where
  -- On strings that fit, `strncmp` over the whole arrays is equality.
  flow_matches-eq-key_eq :
      flow_matches e q ≡ key_eq e.protocol e.src_port e.dst_port e.src_ip e.dst_ip q
  unfolding flow_matches
  flow_matches-eq-key_eq = rw (
    take_all 16 e.src_ip (omega (arith, fits.src_fits)),
    take_all 16 e.dst_ip (omega (arith, fits.dst_fits)),
    take_all 16 q.src_ip (omega (arith, vq.src_ip_fits)),
    take_all 16 q.dst_ip (omega (arith, vq.dst_ip_fits)),
  )

  -- A match means that the five parts are equal.
  flow_matches-agree :
      flow_matches e q ≡ true
      → (e.protocol ≡ q.protocol)
        × (e.src_port ≡ q.src_port)
        × (e.dst_port ≡ q.dst_port)
        × (e.src_ip ≡ q.src_ip)
        × (e.dst_ip ≡ q.dst_ip)
  flow_matches-agree h =
      let (a, r) = &&-eq-true _ _ (sym flow_matches-eq-key_eq ∙ h) in
      let (b, r') = &&-eq-true _ _ r in
      let (c, r'') = &&-eq-true _ _ r' in
      let (s, d) = &&-eq-true _ _ r'' in
      (
        ==→eq _ _ a,
        ==→eq _ _ b,
        ==→eq _ _ c,
        (bytes_eq_iff e.src_ip q.src_ip).0 s,
        (bytes_eq_iff e.dst_ip q.dst_ip).0 d,
      )

module _ {p q : ParsedPacket} (vp : IsValid p) (vq : IsValid q) where
  pub flow_matches-new_entry : flow_matches (new_entry p) q ≡ same_flow p q
  unfolding flow_matches new_entry same_flow
  flow_matches-new_entry = rw (
    take_all 15 p.src_ip vp.src_ip_fits,
    take_all 15 p.dst_ip vp.dst_ip_fits,
    take_all 16 p.src_ip (omega (arith, vp.src_ip_fits)),
    take_all 16 p.dst_ip (omega (arith, vp.dst_ip_fits)),
    take_all 16 q.src_ip (omega (arith, vq.src_ip_fits)),
    take_all 16 q.dst_ip (omega (arith, vq.dst_ip_fits)),
  )

  -- An entry that matches one packet of a flow matches exactly the packets of the flow.
  pub flow_matches-same_flow :
      (e : FlowEntry) → EntryFits e → flow_matches e p ≡ true → flow_matches e q ≡ same_flow p q
  unfolding same_flow
  flow_matches-same_flow e fits h =
      let (a, b, c, s, d) = flow_matches-agree e fits vp h in
      flow_matches-eq-key_eq e fits vq ∙ (λ i. key_eq (a i) (b i) (c i) (s i) (d i) q)

pub flow_matches-count_packet :
    (e : FlowEntry) (p q : ParsedPacket) → flow_matches (count_packet e p) q ≡ flow_matches e q
unfolding flow_matches count_packet
flow_matches-count_packet e p q = refl

pub new_entry-EntryFits : (p : ParsedPacket) → EntryFits (new_entry p)
unfolding new_entry
new_entry-EntryFits p = record {
  src_fits = length-copy_into 16 p.src_ip;
  dst_fits = length-copy_into 16 p.dst_ip;
}

pub count_packet-EntryFits :
    (e : FlowEntry) (p : ParsedPacket) → EntryFits e → EntryFits (count_packet e p)
unfolding count_packet
count_packet-EntryFits e p v = record { src_fits = v.src_fits; dst_fits = v.dst_fits }

pub lookup-append :
    (q : ParsedPacket) (xs : List FlowEntry) (e : FlowEntry)
    → lookup q (xs ++ (e ∷ [])) ≡ (elim (lookup q xs) as (λ _. Option FlowEntry) [
      | some found ↦ some found
      | none ↦ if flow_matches e q then some e else none
    ])
unfolding lookup
lookup-append q [] e = refl
lookup-append q (x ∷ xs) e = ground (arith, lookup-append q xs e)

-- The loop of `flow_table_add` finds nothing exactly where the flow has no entry.
pub count_existing-none :
    (p : ParsedPacket) (xs : List FlowEntry) → (count_existing xs p ≡ none) ↔ (lookup p xs ≡ none)
unfolding count_existing lookup
count_existing-none p [] = (λ _. refl, λ _. refl)
count_existing-none p (x ∷ xs) = ground (arith, count_existing-none p xs)

module _ {p q : ParsedPacket} (vp : IsValid p) (vq : IsValid q) where
  -- Counting a packet changes the entry of its own flow and no other.
  pub lookup-count_existing :
      (xs ys : List FlowEntry)
      → All EntryFits xs
      → count_existing xs p ≡ some ys
      → lookup q ys
        ≡ (if same_flow p q then Option.map (λ e. count_packet e p) (lookup q xs) else lookup q xs)
  unfolding count_existing lookup
  lookup-count_existing [] ys fits e = cc
  lookup-count_existing (x ∷ xs) ys fits e = elim (Bool-cases (flow_matches x p)) [
    | inl hit ↦
        let same = flow_matches-same_flow vp vq x fits.0 hit in
        ground (arith, same, flow_matches-count_packet x p q)
    | inr miss ↦ elim (Option-cases (count_existing xs p)) [
      | inl n ↦ ground arith
      | inr (zs, z) ↦
          let rest = lookup-count_existing xs zs fits.1 z in
          let apart = λ (h : flow_matches x q ≡ true). flow_matches-same_flow vq vp x fits.0 h in
          let whole : ys ≡ x ∷ zs = ground arith in
          rw whole (elim (Bool-cases (flow_matches x q)) [
            | inl found ↦ ground (arith, apart found, same_flow_comm p q)
            | inr other ↦ rw other rest
          ])
    ]
  ]
