-- ===== src/Logger.antt =====
-- src/logger.c: the lines that are printed. What `vprintf` makes of a format and its arguments is given.
use openwrt_edge_agent.Base.{ℕ, [], ◌∷◌, ◌++◌, Bytes, codes}
use openwrt_edge_agent.Decimal.{decimal}

-- `log_prefix`
unfoldable pub log_prefix : Bytes → Bytes → Bytes
log_prefix prefix message = prefix ++ (codes " " ++ (message ++ (10 ∷ [])))

unfoldable pub logger_info : Bytes → Bytes
unfolding log_prefix
logger_info message = log_prefix (codes "[INFO]") message

unfoldable pub logger_alert : Bytes → Bytes
unfolding log_prefix
logger_alert message = log_prefix (codes "[ALERT]") message

unfoldable pub logger_packet : Bytes → Bytes → ℕ → Bytes → ℕ → ℕ → Bytes
logger_packet proto src_ip src_port dst_ip dst_port packet_size =
    codes "["
    ++ (proto
        ++ (codes "] "
            ++ (src_ip
                ++ (codes ":"
                    ++ (decimal src_port
                        ++ (codes " -> "
                            ++ (dst_ip
                                ++ (codes ":"
                                    ++ (decimal dst_port
                                        ++ (codes " size="
                                            ++ (decimal packet_size ++ (10 ∷ []))))))))))))
