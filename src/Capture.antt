-- ===== src/Capture.antt =====
-- src/packet_capture.c: the socket that captures frames. The results of the system calls are given, and
-- the calls that change something are listed.
use openwrt_edge_agent.Base.{
  ℕ, ◌*◌, Bool, List, [], ◌∷◌, ◌++◌, Option, none, some, ◌==◌, if◌then◌else◌, Bytes, codes, length,
}
use openwrt_edge_agent.Logger.{logger_info}

pub data CaptureCall : Type 0 where
  sets_rcvbuf : ℕ → ℕ → CaptureCall
  binds : ℕ → ℕ → CaptureCall
  prints : Bytes → CaptureCall

-- What the system answers: the descriptor of `socket`, the environment, the indices of the interfaces,
-- where 0 is none, and whether `bind` gets through.
pub record System : Type 0 where
  pub socket : Option ℕ
  pub getenv : Bytes → Option Bytes
  pub if_nametoindex : Bytes → ℕ
  pub bind : ℕ → ℕ → Bool

-- `bind_to_iface`
unfoldable pub bind_to_iface : System → ℕ → Bytes → List CaptureCall
unfolding logger_info
bind_to_iface system fd iface =
    let idx = system.if_nametoindex iface in
    if idx == 0
    then prints (
        logger_info (
          codes "capture interface '"
          ++ (iface ++ codes "' not found; capturing on all interfaces")))
      ∷ []
    else binds fd idx
      ∷ (if system.bind fd idx
          then prints (logger_info (codes "capture bound to interface '" ++ (iface ++ codes "'")))
            ∷ []
          else prints (
              logger_info (
                codes "failed to bind capture to '"
                ++ (iface ++ codes "'; capturing on all interfaces")))
            ∷ [])

-- the test of the interface in `packet_capture_open`
unfoldable pub bind_if_asked : System → ℕ → Option Bytes → List CaptureCall
unfolding bind_to_iface
bind_if_asked system fd none = []
bind_if_asked system fd (some iface) =
    if length iface == 0 then [] else bind_to_iface system fd iface

-- The result of `packet_capture_open`, where `none` is negative, and its calls.
pub record Opened : Type 0 where
  pub fd : Option ℕ
  pub calls : List CaptureCall

unfoldable pub packet_capture_open : System → Opened
unfolding bind_if_asked
packet_capture_open system = elim system.socket [
  | none ↦ record { fd = none; calls = [] }
  | some fd ↦ record {
    fd = some fd;
    calls =
        sets_rcvbuf fd (4 * 1024 * 1024)
        ∷ bind_if_asked system fd (system.getenv (codes "AGENT_CAPTURE_IFACE"));
  }
]

-- `packet_capture_receive`
unfoldable pub packet_capture_receive : (ℕ → ℕ → Option Bytes) → ℕ → ℕ → Option Bytes
packet_capture_receive recvfrom fd buffer_size = recvfrom fd buffer_size

-- `packet_capture_close`: the descriptors that are closed
unfoldable pub packet_capture_close : Option ℕ → List ℕ
packet_capture_close none = []
packet_capture_close (some fd) = fd ∷ []
