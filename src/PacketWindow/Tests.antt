-- ===== src/PacketWindow/Tests.antt =====
-- Packets at seconds 5 and 11 through the window of src/packet_window.c.
use openwrt_edge_agent.Base.{◌≡◌, List, [], ◌∷◌, arith, map}
use openwrt_edge_agent.Packet.Samples.{udp_packet}
use openwrt_edge_agent.Stats.Counts.{exact}
use openwrt_edge_agent.PacketWindow.{PacketWindow, init, push, record_of, snapshot}
use openwrt_edge_agent.PacketWindow.Model.{contents, sized, push_list, IsValid}
use openwrt_edge_agent.PacketWindow.Refine.{init-IsValid, push-refines}
use openwrt_edge_agent.PacketWindow.Rolling.{
  Arrival, push_all, live, Calm, last_time, recorded, snapshot-live,
}

abbrev one_in : PacketWindow
one_in = push init udp_packet 5

one_in-IsValid : IsValid one_in
one_in-IsValid = (push-refines udp_packet 5 init-IsValid.0).0

push-refines_example :
    IsValid (push one_in udp_packet 11)
    × (contents (push one_in udp_packet 11)
        ≡ push_list (contents one_in) (record_of udp_packet 11) 11)
push-refines_example = push-refines udp_packet 11 one_in-IsValid

abbrev trace : List Arrival
trace = (udp_packet, 5) ∷ (udp_packet, 11) ∷ []

trace-Calm : Calm 0 [] trace
unfolding live
trace-Calm = (omega arith, omega arith, (omega arith, ground arith, tt))

snapshot-live_example :
    snapshot (push_all init trace)
    ≡ exact (map sized (live (last_time 0 trace) (map recorded trace)))
snapshot-live_example = snapshot-live trace trace-Calm
