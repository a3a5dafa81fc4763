-- ===== src/Roster.antt =====
-- src/client_roster.h and src/client_roster.c: which clients of the local network were seen lately.
-- The list of activity holds the entries in use. The lines of the lease file, as `sscanf` splits
-- them, are given; null pointers are not modelled.
pub mod Activity
pub mod Leases
pub mod Lookup
pub mod History
mod Tests
use openwrt_edge_agent.Base.{
  ℕ, zero, suc, ◌+◌, Bool, true, false, ◌&&◌, ◌||◌, List, [], ◌∷◌, ◌++◌, map, Option, none, some,
  ltb, leb, ◌==◌, if◌then◌else◌, Bytes, codes, length, drop, bytes_eq, strncmp_eq, copy_into,
}
use mathlib.Core.Option
use openwrt_edge_agent.Decimal.{strtoull}

abbrev pub client_online_window_seconds : ℕ
client_online_window_seconds = 60

abbrev pub client_max : ℕ
client_max = 64

abbrev pub client_activity_max : ℕ
client_activity_max = 256

-- `struct client_entry`
pub record ClientEntry : Type 0 where
  pub ip : Bytes
  pub mac : Bytes
  pub name : Bytes
  pub online : Bool

-- `struct client_activity_entry`
pub record ActivityEntry : Type 0 where
  pub ip : Bytes
  pub last_seen : ℕ

-- the range test on `atoi (ip + 4)`: out of its range `strtoull` and `atoi` fail the test alike
unfoldable pub second_octet_private : Bytes → Bool
second_octet_private text = elim (strtoull text) [
  | none ↦ false
  | some (second, end) ↦ leb 16 second && leb second 31
]

-- `is_private_ip`
unfoldable pub is_private_ip : Bytes → Bool
unfolding second_octet_private
is_private_ip ip =
    strncmp_eq ip (codes "192.168.") 8
    || (strncmp_eq ip (codes "10.") 3
        || (strncmp_eq ip (codes "172.") 4 && second_octet_private (drop 4 ip)))

-- `client_activity_init`
unfoldable pub activity_init : List ActivityEntry
activity_init = []

-- the first loop of `client_activity_touch`
unfoldable pub touch_existing : List ActivityEntry → Bytes → ℕ → Option (List ActivityEntry)
touch_existing [] ip now = none
touch_existing (entry ∷ entries) ip now =
    if strncmp_eq entry.ip ip 16
    then some (record entry { last_seen = now } ∷ entries)
    else Option.map (λ es. entry ∷ es) (touch_existing entries ip now)

-- the slot that `client_activity_touch` fills
unfoldable pub seen_entry : Bytes → ℕ → ActivityEntry
seen_entry ip now = record { ip = copy_into 16 ip; last_seen = now }

-- the second loop from index `i`, with `oldest` and the time of that entry
unfoldable pub oldest_from : ℕ → ℕ → ℕ → List ActivityEntry → ℕ
oldest_from i oldest time [] = oldest
oldest_from i oldest time (entry ∷ entries) =
    if ltb entry.last_seen time
    then oldest_from (i + 1) i entry.last_seen entries
    else oldest_from (i + 1) oldest time entries

-- the index that it ends with
unfoldable pub oldest_index : List ActivityEntry → ℕ
unfolding oldest_from
oldest_index [] = 0
oldest_index (entry ∷ entries) = oldest_from 1 0 entry.last_seen entries

-- a write at an index
unfoldable pub replace_at : List ActivityEntry → ℕ → ActivityEntry → List ActivityEntry
replace_at [] i slot = []
replace_at (entry ∷ entries) zero slot = slot ∷ entries
replace_at (entry ∷ entries) (suc i) slot = entry ∷ replace_at entries i slot

-- `client_activity_touch` for an address that has no entry
unfoldable pub touch_new : List ActivityEntry → Bytes → ℕ → List ActivityEntry
unfolding seen_entry oldest_index replace_at
touch_new activity ip now =
    if ltb (length activity) client_activity_max
    then activity ++ (seen_entry ip now ∷ [])
    else replace_at activity (oldest_index activity) (seen_entry ip now)

-- `client_activity_touch` once the address is accepted
unfoldable pub touch_accepted : List ActivityEntry → Bytes → ℕ → List ActivityEntry
unfolding touch_existing touch_new
touch_accepted activity ip now = elim (touch_existing activity ip now) [
  | some entries ↦ entries
  | none ↦ touch_new activity ip now
]

-- `client_activity_touch`
unfoldable pub touch : List ActivityEntry → Bytes → ℕ → List ActivityEntry
unfolding is_private_ip touch_accepted
touch activity ip now =
    if length ip == 0
    then activity
    else if is_private_ip ip
    then touch_accepted activity ip now
    else activity

-- `activity_is_online`, on signed times
unfoldable pub is_online : List ActivityEntry → Bytes → ℕ → Bool
is_online [] ip now = false
is_online (entry ∷ entries) ip now =
    if strncmp_eq entry.ip ip 16
    then leb now (entry.last_seen + client_online_window_seconds)
    else is_online entries ip now

-- One line of the lease file with at least three fields, as `sscanf` leaves them.
pub record Lease : Type 0 where
  pub mac : Bytes
  pub ip : Bytes
  pub hostname : Bytes

-- the slot that `read_dhcp_leases` fills
unfoldable pub client_of : Lease → ClientEntry
client_of lease = record {
  ip = copy_into 16 lease.ip;
  mac = copy_into 20 lease.mac;
  name =
      if length lease.hostname == 0
      then []
      else if bytes_eq lease.hostname (codes "*")
      then []
      else copy_into 64 lease.hostname;
  online = false;
}

-- the loop of `read_dhcp_leases`, over the lines; `none` is a line of fewer than three fields
unfoldable pub read_leases : List (Option Lease) → List ClientEntry → List ClientEntry
unfolding client_of
read_leases [] roster = roster
read_leases (none ∷ lines) roster = read_leases lines roster
read_leases (some lease ∷ lines) roster =
    let rest = read_leases lines (roster ++ (client_of lease ∷ [])) in
    let skip = read_leases lines roster in
    if length lease.ip == 0 || length lease.mac == 0
    then skip
    else if leb client_max (length roster)
    then roster
    else rest

-- `client_roster_collect`
unfoldable pub collect : List (Option Lease) → List ActivityEntry → ℕ → List ClientEntry
unfolding read_leases is_online
collect lines activity now =
    map {A = ClientEntry} (λ c. record c { online = is_online activity c.ip now })
      (read_leases lines [])
