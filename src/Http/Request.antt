-- ===== src/Http/Request.antt =====
-- The requests of src/http_client.c as a server reads them: lines up to an empty one, then as many
-- bytes as the length that one of them gives.
use openwrt_edge_agent.Base.{
  ℕ, zero, suc, [], ◌∷◌, Option, none, some, ltb, if◌then◌else◌, Bytes, codes, length, take,
  after_prefix,
}
use openwrt_edge_agent.Decimal.{strtoull}
use openwrt_edge_agent.Http.{crlf, line}

abbrev before_line : ℕ → Option (Bytes × Bytes) → Option (Bytes × Bytes)
before_line c none = none
before_line c (some (line, rest)) = some (c ∷ line, rest)

-- The first line, and what follows its end.
unfoldable pub split_line : Bytes → Option (Bytes × Bytes)
split_line [] = none
split_line (c ∷ cs) = elim (after_prefix crlf (c ∷ cs)) [
  | some rest ↦ some ([], rest)
  | none ↦ before_line c (split_line cs)
]

-- The length that a line gives.
unfoldable pub content_length : Bytes → Option ℕ
content_length line = elim (after_prefix (codes "Content-Length: ") line) [
  | none ↦ none
  | some value ↦ elim (strtoull value) [ none ↦ none | some (n, _) ↦ some n ]
]

abbrev or_else : Option ℕ → Option ℕ → Option ℕ
or_else none old = old
or_else (some n) old = some n

-- the body of `n` bytes, if that many came
unfoldable pub body_of : Option ℕ → Bytes → Option Bytes
body_of none rest = none
body_of (some n) rest = if ltb (length rest) n then none else some (take n rest)

-- The body of a request of at most `lines` lines, with the length known so far.
unfoldable pub read_request : ℕ → Option ℕ → Bytes → Option Bytes
unfolding split_line content_length body_of
read_request zero known text = none
read_request (suc lines) known text = elim (split_line text) [
  | none ↦ none
  | some ([], rest) ↦ body_of known rest
  | some (c ∷ line, rest) ↦ read_request lines (or_else (content_length (c ∷ line)) known) rest
]
