-- ===== src/Parser/Names.antt =====
-- The DNS name loop of src/packet_parser.c: its bounds and its end.
use openwrt_edge_agent.Base.{
  if_intro, not, ◌&&◌, ◌/◌, ◌%◌, ℕ, zero, suc, ◌+◌, ◌-◌, ◌*◌, ◌≤◌, ◌<◌, ◌≡◌, refl, [], ◌∷◌, ◌++◌,
  Option, none, some, arith, Bytes, length, take, ltb, leb, ◌==◌, get_elem?_in_range, length-append,
  length-take,
}
use openwrt_edge_agent.Parser.{
  ◌>>=◌, read_u16_be, copy_bytes, Label, end_of_name, bad_label, label, check_label, next_label,
  Scan, complete, broken, out_of_fuel, scan_qname, finish_name, parse_dns,
}

-- A read that succeeds.
abbrev pub Succeeds {ℓ} : {A : Type ℓ} → Option A → Type ℓ
Succeeds {A = A} r = (a : A) × (r ≡ some a)

pub read_u16_be_in_range :
    (buffer : Bytes) (at : ℕ) → at + 2 ≤ length buffer → Succeeds (read_u16_be buffer at)
unfolding read_u16_be
read_u16_be_in_range buffer at h =
    let (high, p) = get_elem?_in_range buffer at (omega arith) in
    let (low, q) = get_elem?_in_range buffer (at + 1) (omega arith) in
    (high * 256 + low, rw (p, ◌>>=◌, q))

-- The copy of a label that lies in the buffer succeeds, with as many bytes as asked for.
copy_bytes_in_range :
    (n : ℕ) (buffer : Bytes) (at : ℕ)
    → at + n ≤ length buffer
    → (bytes : Bytes) × (copy_bytes buffer at n ≡ some bytes) × (length bytes ≡ n)
unfolding copy_bytes
copy_bytes_in_range zero buffer at h = ([], refl, refl)
copy_bytes_in_range (suc n) buffer at h =
    let (byte, p) = get_elem?_in_range buffer at (omega arith) in
    let (rest, q, e) = copy_bytes_in_range n buffer (at + 1) (omega arith) in
    (byte ∷ rest, rw (p, q), omega arith)

-- What is known of a label: it lies in the buffer, and it and its dot fit `dns_qname`.
abbrev pub LabelFits : Bytes → ℕ → ℕ → Label → Type 0
LabelFits buffer pos written (label bytes) =
    (pos + 1 + length bytes ≤ length buffer)
    × (written + length bytes + 1 ≤ 255)
    × (0 < length bytes)
LabelFits buffer pos written end_of_name = Unit
LabelFits buffer pos written bad_label = Unit

module _ (buffer : Bytes) (pos written : ℕ) where
  abbrev pub Checked : Option Label → Type 0
  Checked r = (l : Label) × (r ≡ some l) × LabelFits buffer pos written l

  check_label_fits : (n : ℕ) → Checked (check_label buffer pos written n)
  unfolding check_label
  check_label_fits n =
      if_intro Checked (n == 0) _ _ (λ _. (end_of_name, refl, tt))
        λ more.
          if_intro Checked (not ((n / 64) % 4 == 0)) _ _ (λ _. (bad_label, refl, tt))
            λ _.
              if_intro Checked (ltb (length buffer) (pos + 1 + n)) _ _ (λ _. (bad_label, refl, tt))
                λ inside.
                  if_intro Checked (ltb (256 - 1) (written + n + 1)) _ _
                    (λ _. (bad_label, refl, tt))
                    λ room.
                      let (bytes, e, len) = copy_bytes_in_range n buffer (pos + 1) (ground arith) in
                      (label bytes, rw e, (ground arith, ground arith, ground arith))

  next_label_fits : Checked (next_label buffer pos written)
  unfolding next_label
  next_label_fits =
      if_intro Checked (leb (length buffer) pos) _ _ (λ _. (bad_label, refl, tt))
        λ inside.
          let (n, e) = get_elem?_in_range buffer pos (ground arith) in rw e (check_label_fits n)

-- How the loop may end: never without fuel, and never with a name past the end of `dns_qname`.
abbrev pub ScanFits : Scan → Type 0
ScanFits (complete out) = length out ≤ 255
ScanFits broken = Unit
ScanFits out_of_fuel = ⊥

abbrev pub Scans : Option Scan → Type 0
Scans r = (s : Scan) × (r ≡ some s) × ScanFits s

module _ (fuel : ℕ) (buffer : Bytes) (pos : ℕ) (out : Bytes) where
  -- The rest of the loop, from what a round meets at `pos`.
  abbrev pub after_label : Label → Option Scan
  after_label end_of_name = some (complete out)
  after_label bad_label = some broken
  after_label (label bytes) =
      scan_qname fuel buffer (pos + (1 + length bytes)) (out ++ (bytes ++ (b'.' ∷ [])))

  pub scan_qname_step :
      (l : Label)
      → next_label buffer pos (length out) ≡ some l
      → scan_qname (suc fuel) buffer pos out ≡ after_label l
  unfolding scan_qname
  scan_qname_step end_of_name e = rw (e, scan_qname)
  scan_qname_step bad_label e = rw (e, scan_qname)
  scan_qname_step (label bytes) e = rw (e, scan_qname)

  Scans-after_label :
      (l : Label)
      → LabelFits buffer pos (length out) l
      → length out ≤ 255
      → ((bytes : Bytes)
          → LabelFits buffer pos (length out) (label bytes)
          → Scans (after_label (label bytes)))
      → Scans (after_label l)
  Scans-after_label end_of_name fits small more = (complete out, refl, small)
  Scans-after_label bad_label fits small more = (broken, refl, tt)
  Scans-after_label (label bytes) fits small more = more bytes fits

length-dotted :
    (out bytes : Bytes) → length (out ++ (bytes ++ (b'.' ∷ []))) ≡ length out + length bytes + 1
length-dotted out bytes =
    omega (arith, length-append out (bytes ++ (b'.' ∷ [])), length-append bytes (b'.' ∷ []))

-- From a place inside the packet, with at most 255 bytes written and more fuel than bytes left, the
-- name loop ends before its fuel does and reads inside the packet, and a name that it completes has at
-- most 255 bytes.
pub scan_qname-Scans :
    (fuel : ℕ) (buffer : Bytes) (pos : ℕ) (out : Bytes)
    → pos ≤ length buffer
    → length buffer < pos + fuel
    → length out ≤ 255
    → Scans (scan_qname fuel buffer pos out)
scan_qname-Scans zero buffer pos out inside enough small = absurd (omega arith)
scan_qname-Scans (suc fuel) buffer pos out inside enough small =
    let (l, e, fits) = next_label_fits buffer pos (length out) in
    rw (scan_qname_step fuel buffer pos out l e) (
      Scans-after_label fuel buffer pos out l fits small λ bytes f.
        scan_qname-Scans fuel buffer (pos + (1 + length bytes)) (out ++ (bytes ++ (b'.' ∷ [])))
          (omega arith) (omega arith) (omega (arith, length-dotted out bytes)))

-- A queried name and its terminator fit `dns_qname[256]`.
abbrev pub NameFits : Option Bytes → Type 0
NameFits none = Unit
NameFits (some text) = length text ≤ 254

abbrev pub Named : Option (Option Bytes) → Type 0
Named r = (name : Option Bytes) × (r ≡ some name) × NameFits name

Named-finish_name : (s : Scan) → ScanFits s → Named (finish_name s)
unfolding finish_name
Named-finish_name (complete out) fits =
    if_intro (λ o. Named (some o)) (length out == 0) none (some (take (length out - 1) out))
      (λ _. (none, refl, tt)) (λ _. (some _, refl, omega (arith, length-take (length out - 1) out)))
Named-finish_name broken fits = (none, refl, tt)
Named-finish_name out_of_fuel fits = absurd fits

-- The DNS block reads inside the packet, and the name it finds fits `dns_qname`.
pub parse_dns-Named : (buffer : Bytes) (dns_offset : ℕ) → Named (parse_dns buffer dns_offset)
unfolding parse_dns
parse_dns-Named buffer dns_offset =
    if_intro Named (ltb (length buffer) (dns_offset + 12)) _ _ (λ _. (none, refl, tt))
      λ long.
        let (qdcount, p) = read_u16_be_in_range buffer (dns_offset + 4) (ground arith) in
        let (flags, q) = get_elem?_in_range buffer (dns_offset + 2) (ground arith) in
        rw (p, q)
          (if_intro Named (leb 1 qdcount && (flags / 128) % 2 == 0) _ _
            (λ _.
              let (s, e, fits) =
                scan_qname-Scans (length buffer + 1) buffer (dns_offset + 12) [] (ground arith)
                  (omega arith) (omega arith) in
              rw e (Named-finish_name s fits))
            (λ _. (none, refl, tt)))
