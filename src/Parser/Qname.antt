-- ===== src/Parser/Qname.antt =====
-- The DNS name loop of src/packet_parser.c against the wire format of RFC 1035: labels with their
-- lengths, and an empty label at the end.
use openwrt_edge_agent.Base.{
  ℕ, zero, suc, ◌+◌, ◌-◌, ◌≤◌, ◌<◌, ◌≡◌, refl, sym, ap, ◌∙◌, List, [], ◌∷◌, ◌++◌, some, arith,
  Bytes, length, All, append_assoc, append-nil, length-append, get_elem?-append, take-append,
}
use openwrt_edge_agent.Parser.{
  ◌>>=◌, copy_bytes, label, end_of_name, check_label, next_label, complete, scan_qname, finish_name,
}
use openwrt_edge_agent.Parser.Names.{scan_qname_step}

-- The labels of a name on the wire, with what follows the name.
unfoldable pub wire : List Bytes → Bytes → Bytes
wire [] rest = 0 ∷ rest
wire (l ∷ ls) rest = length l ∷ (l ++ wire ls rest)

-- Each label with a dot behind it.
unfoldable pub dotted : List Bytes → Bytes
dotted [] = []
dotted (l ∷ ls) = l ++ (b'.' ∷ dotted ls)

-- The labels with dots between them.
unfoldable pub join : List Bytes → Bytes
join [] = []
join (l ∷ []) = l
join (l ∷ m ∷ ls) = l ++ (b'.' ∷ join (m ∷ ls))

-- A label of one byte to 63.
abbrev pub IsLabel : Bytes → Type 0
IsLabel l = (0 < length l) × (length l < 64)

copy_bytes-append :
    (l pre rest : Bytes) (at n : ℕ)
    → at ≡ length pre
    → n ≡ length l
    → copy_bytes (pre ++ (l ++ rest)) at n ≡ some l
unfolding copy_bytes
copy_bytes-append [] pre rest at zero e f = refl
copy_bytes-append [] pre rest at (suc n) e f = absurd (omega arith)
copy_bytes-append (x ∷ l) pre rest at zero e f = absurd (omega arith)
copy_bytes-append (x ∷ l) pre rest at (suc n) e f =
    let moved : copy_bytes (pre ++ (x ∷ (l ++ rest))) (at + 1) n ≡ some l =
      ap (λ b. copy_bytes b (at + 1) n) (sym (append_assoc pre (x ∷ []) (l ++ rest)))
      ∙ copy_bytes-append l (pre ++ (x ∷ [])) rest (at + 1) n
          (omega (arith, length-append pre (x ∷ []))) (omega arith) in
    rw (get_elem?-append pre x (l ++ rest) at e, ◌>>=◌, moved)

-- A label that is well-formed and fits is read as it stands.
next_label-wire :
    (pre l rest : Bytes) (pos written : ℕ)
    → pos ≡ length pre
    → IsLabel l
    → written + length l + 1 ≤ 255
    → next_label (pre ++ (length l ∷ (l ++ rest))) pos written ≡ some (label l)
unfolding next_label check_label
next_label-wire pre l rest pos written e ok room =
    let copied : copy_bytes (pre ++ (length l ∷ (l ++ rest))) (pos + 1) (length l) ≡ some l =
      ap (λ b. copy_bytes b (pos + 1) (length l))
        (sym (append_assoc pre (length l ∷ []) (l ++ rest)))
      ∙ copy_bytes-append l (pre ++ (length l ∷ [])) rest (pos + 1) (length l)
          (omega (arith, length-append pre (length l ∷ []))) refl in
    ground (
      arith,
      get_elem?-append pre (length l) (l ++ rest) pos e,
      length-append pre (length l ∷ (l ++ rest)),
      length-append l rest,
      copied,
    )

next_label-wire_end :
    (pre rest : Bytes) (pos written : ℕ)
    → pos ≡ length pre
    → next_label (pre ++ (0 ∷ rest)) pos written ≡ some end_of_name
unfolding next_label check_label
next_label-wire_end pre rest pos written e =
    ground (arith, get_elem?-append pre 0 rest pos e, length-append pre (0 ∷ rest))

length-wire : (labels : List Bytes) (rest : Bytes) → length labels < length (wire labels rest)
unfolding wire
length-wire [] rest = omega arith
length-wire (l ∷ ls) rest = omega (arith, length-append l (wire ls rest), length-wire ls rest)

-- The loop writes each label with its dot behind what is written, and stops at the empty label.
scan_qname-wire :
    (labels : List Bytes) (fuel : ℕ) (pre rest out : Bytes) (pos : ℕ)
    → pos ≡ length pre
    → length labels < fuel
    → All IsLabel labels
    → length (out ++ dotted labels) ≤ 255
    → scan_qname fuel (pre ++ wire labels rest) pos out ≡ some (complete (out ++ dotted labels))
unfolding wire dotted
scan_qname-wire labels zero pre rest out pos e enough ok room = absurd (omega arith)
scan_qname-wire [] (suc fuel) pre rest out pos e enough ok room =
    scan_qname_step fuel (pre ++ (0 ∷ rest)) pos out end_of_name
      (next_label-wire_end pre rest pos (length out) e)
    ∙ ap (λ o. some (complete o)) (sym (append-nil out))
scan_qname-wire (l ∷ ls) (suc fuel) pre rest out pos e enough ok room =
    let pre' = pre ++ (length l ∷ l) in
    let out' = out ++ (l ++ (b'.' ∷ [])) in
    let whole : pre ++ (length l ∷ (l ++ wire ls rest)) ≡ pre' ++ wire ls rest =
      sym (append_assoc pre (length l ∷ l) (wire ls rest)) in
    let written : out' ++ dotted ls ≡ out ++ (l ++ (b'.' ∷ dotted ls)) = simp append_assoc in
    scan_qname_step fuel (pre ++ (length l ∷ (l ++ wire ls rest))) pos out (label l) (
      next_label-wire pre l (wire ls rest) pos (length out) e ok.0 (
        omega
          (arith, length-append out (l ++ (b'.' ∷ dotted ls)), length-append l (b'.' ∷ dotted ls))))
    ∙ ap (λ b. scan_qname fuel b (pos + (1 + length l)) out') whole
    ∙ scan_qname-wire ls fuel pre' rest out' (pos + (1 + length l))
        (omega (arith, length-append pre (length l ∷ l))) (omega arith) ok.1 (rw written room)
    ∙ ap (λ o. some (complete o)) written

dotted-eq-join : (l : Bytes) (ls : List Bytes) → dotted (l ∷ ls) ≡ join (l ∷ ls) ++ (b'.' ∷ [])
unfolding dotted join
dotted-eq-join l [] = refl
dotted-eq-join l (m ∷ ls) =
    ap (λ t. l ++ (b'.' ∷ t)) (dotted-eq-join m ls)
    ∙ sym (append_assoc l (b'.' ∷ join (m ∷ ls)) (b'.' ∷ []))

pub length-dotted_lem :
    (l : Bytes) (ls : List Bytes) → length (dotted (l ∷ ls)) ≡ length (join (l ∷ ls)) + 1
length-dotted_lem l ls = ap length (dotted-eq-join l ls) ∙ length-append (join (l ∷ ls)) (b'.' ∷ [])

-- Without its last byte, a name with a dot behind each label is the name.
finish_name-dotted :
    (l : Bytes) (ls : List Bytes)
    → finish_name (complete (dotted (l ∷ ls))) ≡ some (some (join (l ∷ ls)))
unfolding finish_name
finish_name-dotted l ls =
    let name = join (l ∷ ls) in
    ground (
      arith,
      length-dotted_lem l ls,
      dotted-eq-join l ls,
      take-append name (b'.' ∷ []) (length (dotted (l ∷ ls)) - 1),
    )

-- A name on the wire, of labels of 1 to 63 bytes and of at most 254 bytes with its dots, is read
-- back label by label, with dots between the labels.
pub read_back :
    (l : Bytes) (ls : List Bytes) (pre rest : Bytes)
    → All IsLabel (l ∷ ls)
    → length (join (l ∷ ls)) ≤ 254
    → let buffer = pre ++ wire (l ∷ ls) rest in
      (do scan ← scan_qname (length buffer + 1) buffer (length pre) []; finish_name scan)
      ≡ some (some (join (l ∷ ls)))
read_back l ls pre rest ok room =
    let labels = l ∷ ls in
    rw
      (scan_qname-wire labels (length (pre ++ wire labels rest) + 1) pre rest [] (length pre) refl
        (omega (arith, length-append pre (wire labels rest), length-wire labels rest)) ok
        (omega (arith, length-dotted_lem l ls)))
      (finish_name-dotted l ls)
