-- ===== src/DnsWindow/Counts.antt =====
-- The counters of the events of src/dns_window.c.
use mathlib.Core.Path.{subst}
use openwrt_edge_agent.Base.{
  ◌<◌, ◌^◌, ◌≡◌, sym, inl, inr, List, [], ◌∷◌, some, arith, leb, if_intro, Bytes, length, All,
  All-append, Bool-cases, Option-cases,
}
use openwrt_edge_agent.DnsWindow.{
  DnsEvent, DnsWindow, dns_max_events, event_matches, count_query, new_event, count_existing,
  add_new, add,
}

abbrev pub CountsFit : List DnsEvent → Type 0
CountsFit = All (λ event. event.count < 2 ^ 32)

count_existing-CountsFit :
    (xs ys : List DnsEvent) (client_ip domain : Bytes)
    → CountsFit xs
    → count_existing xs client_ip domain ≡ some ys
    → CountsFit ys
unfolding count_existing count_query
count_existing-CountsFit [] ys client_ip domain h e = ground (arith, e)
count_existing-CountsFit (x ∷ xs) ys client_ip domain h e =
    elim (Bool-cases (event_matches x client_ip domain)) [
      | inl hit ↦
          let whole : count_query x ∷ xs ≡ ys = ground (arith, e, hit) in
          subst CountsFit whole (omega arith, h.1)
      | inr miss ↦ elim (Option-cases (count_existing xs client_ip domain)) [
        | inl n ↦ ground (arith, e, miss, n)
        | inr (zs, z) ↦
            let whole : x ∷ zs ≡ ys = ground (arith, e, miss, z) in
            subst CountsFit whole (h.0, count_existing-CountsFit xs zs client_ip domain h.1 z)
      ]
    ]

pub add-CountsFit :
    (win : DnsWindow) (client_ip domain : Bytes)
    → CountsFit win.events
    → CountsFit (add win client_ip domain).events
unfolding add add_new new_event
add-CountsFit win client_ip domain h =
    elim (Option-cases (count_existing win.events client_ip domain)) [
      | inl n ↦
          let added : add win client_ip domain ≡ add_new win client_ip domain = rw (n, add) in
          subst (λ w. CountsFit w.events) (sym added)
            (if_intro (λ (w : DnsWindow). CountsFit w.events)
              (leb dns_max_events (length win.events)) _ _ (λ _. h)
              (λ _.
                All-append (λ event. event.count < 2 ^ 32) (new_event client_ip domain ∷ [])
                  (omega arith, tt) win.events h))
      | inr (ys, y) ↦
          let added : add win client_ip domain ≡ record win { events = ys } = rw (y, add) in
          subst (λ w. CountsFit w.events) (sym added)
            (count_existing-CountsFit win.events ys client_ip domain h y)
    ]
