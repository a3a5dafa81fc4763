-- ===== src/MainLoop/Console.antt =====
-- The lines that src/main.c prints of its own: the usage, and those of the capture loop.
use openwrt_edge_agent.Base.{Bool, List, [], ◌∷◌, ◌++◌, leb, ◌-◌, ◌==◌, if◌then◌else◌, Bytes, codes}
use openwrt_edge_agent.Decimal.{decimal}
use openwrt_edge_agent.Logger.{logger_info, logger_packet}
use openwrt_edge_agent.Packet.{ParsedPacket, proto_tcp}
use openwrt_edge_agent.Stats.{TrafficStats}
use openwrt_edge_agent.PacketWindow.{snapshot}
use openwrt_edge_agent.MainLoop.Loop.{Agent, Moment, take_in, stats_window_seconds}

-- `print_usage`
unfoldable pub print_usage : Bytes → List Bytes
print_usage prog =
    (codes "Usage: " ++ (prog ++ codes " [--tcp|--udp|--help]\n"))
    ∷ (codes "  " ++ (prog ++ codes "         Process TCP and UDP traffic\n"))
    ∷ (codes "  " ++ (prog ++ codes " --tcp   Process TCP traffic only\n"))
    ∷ (codes "  " ++ (prog ++ codes " --udp   Process UDP traffic only\n"))
    ∷ (codes "  " ++ (prog ++ codes " --help  Show this message\n"))
    ∷ []

-- `log_stats_window`
unfoldable pub log_stats_window : TrafficStats → Bytes
unfolding logger_info
log_stats_window stats = logger_info (
    codes "[STATS] total_packets="
    ++ (decimal stats.total_packets
        ++ (codes " tcp="
            ++ (decimal stats.tcp_packets
                ++ (codes " udp="
                    ++ (decimal stats.udp_packets
                        ++ (codes " total_bytes="
                            ++ (decimal stats.total_bytes
                                ++ (codes " tcp_bytes="
                                    ++ (decimal stats.tcp_bytes
                                        ++ (codes " udp_bytes="
                                            ++ decimal stats.udp_bytes)))))))))))

-- the call of `logger_packet`
unfoldable pub packet_line : ParsedPacket → Bytes
unfolding logger_packet
packet_line packet =
    logger_packet (if packet.protocol == proto_tcp then codes "TCP" else codes "UDP") packet.src_ip
      packet.src_port packet.dst_ip packet.dst_port packet.packet_size

-- the lines of a turn on a packet that was accepted, less those of `flush_window`
unfoldable pub turn_lines : Bool → Agent → ParsedPacket → Moment → List Bytes
unfolding packet_line log_stats_window take_in snapshot
turn_lines log_packets agent packet m =
    let agent' = take_in agent packet m.now in
    (if log_packets then packet_line packet ∷ [] else [])
    ++ (if leb stats_window_seconds (m.now - agent'.window_start)
        then log_stats_window (snapshot agent'.pkt_window) ∷ []
        else [])
