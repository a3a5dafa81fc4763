-- ===== src/Http/Get.antt =====
-- `http_get` of src/http_client.c, through a shell command.
use openwrt_edge_agent.Base.{
  ℕ, ◌-◌, Bool, true, false, ◌&&◌, ◌||◌, List, [], ◌∷◌, ◌++◌, Option, none, some, leb, ◌==◌,
  if◌then◌else◌, Bytes, codes, length,
}
use openwrt_edge_agent.Http.{receive_from}

-- the test of one byte, of which the last part is `strchr`
abbrev pub in_text : ℕ → Bytes → Bool
in_text c [] = false
in_text c (b ∷ bs) = c == b || in_text c bs

unfoldable pub byte_is_safe : ℕ → Bool
byte_is_safe c =
    (leb b'a' c && leb c b'z')
    || ((leb b'A' c && leb c b'Z')
        || ((leb b'0' c && leb c b'9') || in_text c (codes ":/._-~?=&%")))

-- `url_is_safe`
unfoldable pub url_is_safe : Bytes → Bool
unfolding byte_is_safe
url_is_safe [] = true
url_is_safe (c ∷ cs) = byte_is_safe c && url_is_safe cs

-- the command that `http_get` gives to `popen`, if it comes to that
abbrev pub command_head : Bytes
command_head = codes "uclient-fetch -q -O - --timeout=5 \""

abbrev pub command_tail : Bytes
command_tail = codes " 2>/dev/null"

unfoldable pub get_command : Bytes → Option Bytes
unfolding url_is_safe
get_command url =
    let command = command_head ++ (url ++ (b'"' ∷ command_tail)) in
    if url_is_safe url then (if leb 512 (length command) then none else some command) else none

-- The results of the calls for one command: the chunks that `fread` reads, and whether it exited with
-- code 0.
pub record Command : Type 0 where
  pub opens : Bool
  pub output : List Bytes
  pub succeeds : Bool

-- `http_get` with a buffer of `resp_size` bytes: the response, where `none` is -1
unfoldable pub http_get : (Bytes → Command) → Bytes → ℕ → Option Bytes
unfolding get_command receive_from
http_get shell url resp_size = elim (get_command url) [
  | none ↦ none
  | some command ↦
      if (shell command).opens && (shell command).succeeds
      then some (receive_from (resp_size - 1) (shell command).output [])
      else none
]
