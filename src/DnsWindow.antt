-- ===== src/DnsWindow.antt =====
-- src/dns_window.h and src/dns_window.c: how often each client asked for each name in a window. The
-- list holds the events in use, so its length is `count`; null pointers are not modelled.
pub mod Tally
pub mod Counts
mod Tests
use openwrt_edge_agent.Base.{
  ℕ, ◌+◌, ◌%◌, ◌^◌, Bool, true, false, ◌&&◌, List, [], ◌∷◌, ◌++◌, Option, none, some, leb,
  if◌then◌else◌, Bytes, length, strncmp_eq, copy_into,
}
use mathlib.Core.Option

abbrev pub dns_max_events : ℕ
dns_max_events = 64

-- `struct dns_event`
pub record DnsEvent : Type 0 where
  pub client_ip : Bytes
  pub domain : Bytes
  pub count : ℕ

-- `struct dns_window`
pub record DnsWindow : Type 0 where
  pub events : List DnsEvent
  pub overflow_logged : Bool

-- `dns_window_init`
unfoldable pub init : DnsWindow
init = record { events = []; overflow_logged = false }

-- the test of the loop
unfoldable pub event_matches : DnsEvent → Bytes → Bytes → Bool
event_matches event client_ip domain =
    strncmp_eq event.client_ip client_ip 16 && strncmp_eq event.domain domain 256

-- `count++` on a `uint32_t`
unfoldable pub count_query : DnsEvent → DnsEvent
count_query event = record event { count = (event.count + 1) % 2 ^ 32 }

-- the slot that `dns_window_add` fills
unfoldable pub new_event : Bytes → Bytes → DnsEvent
new_event client_ip domain = record {
  client_ip = copy_into 16 client_ip;
  domain = copy_into 256 domain;
  count = 1;
}

-- the loop of `dns_window_add`: the events with the query counted at its own, if it has one
unfoldable pub count_existing : List DnsEvent → Bytes → Bytes → Option (List DnsEvent)
count_existing [] client_ip domain = none
count_existing (event ∷ events) client_ip domain =
    if event_matches event client_ip domain
    then some (count_query event ∷ events)
    else Option.map (λ es. event ∷ es) (count_existing events client_ip domain)

-- `dns_window_add` for a query that the window does not have
unfoldable pub add_new : DnsWindow → Bytes → Bytes → DnsWindow
add_new win client_ip domain =
    if leb dns_max_events (length win.events)
    then record win { overflow_logged = true }
    else record win { events = win.events ++ (new_event client_ip domain ∷ []) }

-- `dns_window_add`
unfoldable pub add : DnsWindow → Bytes → Bytes → DnsWindow
unfolding count_existing add_new
add win client_ip domain = elim (count_existing win.events client_ip domain) [
  | some events ↦ record win { events = events }
  | none ↦ add_new win client_ip domain
]

-- `dns_window_reset`
unfoldable pub reset : DnsWindow → DnsWindow
unfolding init
reset win = init
