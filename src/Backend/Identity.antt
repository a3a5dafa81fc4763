-- ===== src/Backend/Identity.antt =====
-- The device id that src/backend_client.c keeps in a file between two starts.
use openwrt_edge_agent.Base.{
  ℕ, zero, suc, ◌≤◌, ◌≡◌, ◌≢◌, refl, sym, ap, ◌||◌, take_all, append-nil, ◌∙◌, ◌⊎◌, inl, inr, false,
  [], ◌∷◌, ◌++◌, Option, some, arith, ◌==◌, Bytes, length, take, c_str, All, Bool-cases,
}
use mathlib.Core.Path.{subst}
use openwrt_edge_agent.Backend.Load.{
  first_line, is_blank, trim_end, device_id_in, read_device_id_file,
}
use openwrt_edge_agent.Backend.Register.{write_device_id_file}

-- No byte is a blank or a NUL.
abbrev pub Solid : Bytes → Type 0
Solid = All (λ c. (is_blank c ≡ false) × (c ≢ 0))

first_line-Solid : (id : Bytes) → Solid id → first_line (id ++ (10 ∷ [])) ≡ id ++ (10 ∷ [])
unfolding first_line
first_line-Solid [] h = refl
first_line-Solid (c ∷ cs) h = ground (arith, h.0, first_line-Solid cs h.1)

take_line :
    (n : ℕ) (id : Bytes)
    → length id ≤ n
    → (take n (id ++ (10 ∷ [])) ≡ id) ⊎ (take n (id ++ (10 ∷ [])) ≡ id ++ (10 ∷ []))
take_line zero [] h = inl refl
take_line (suc n) [] h = inr (take_all (suc n) (10 ∷ []) (omega arith))
take_line zero (c ∷ cs) h = absurd (omega (arith, h))
take_line (suc n) (c ∷ cs) h = elim (take_line n cs (omega (arith, h))) [
  | inl e ↦ inl (ap (λ t. c ∷ t) e)
  | inr e ↦ inr (ap (λ t. c ∷ t) e)
]

c_str-Solid : (id rest : Bytes) → Solid id → c_str (id ++ rest) ≡ id ++ c_str rest
c_str-Solid [] rest h = refl
c_str-Solid (c ∷ cs) rest h = ground (arith, h.0, c_str-Solid cs rest h.1)

trim_end-Solid : (id rest : Bytes) → Solid id → trim_end rest ≡ [] → trim_end (id ++ rest) ≡ id
unfolding trim_end
trim_end-Solid [] rest h e = e
trim_end-Solid (c ∷ cs) rest h e = rw (trim_end-Solid cs rest h.1 e) (ground (arith, h.0))

-- What stands before the trimming, cut at the buffer's end or not.
device_id_line :
    (id text : Bytes)
    → Solid id
    → (text ≡ id) ⊎ (text ≡ id ++ (10 ∷ []))
    → trim_end (c_str text) ≡ id
unfolding trim_end
device_id_line id text h (inl e) =
    ap (λ t. trim_end (c_str t)) (e ∙ sym (append-nil id))
    ∙ ap trim_end (c_str-Solid id [] h)
    ∙ trim_end-Solid id [] h refl
device_id_line id text h (inr e) =
    rw (e, c_str-Solid id (10 ∷ []) h) (trim_end-Solid id (10 ∷ []) h refl)

-- An id of 1 to 63 bytes, none of them a blank or a NUL, that `write_device_id_file` wrote is what
-- `read_device_id_file` finds in the same file, also where the buffer has no room for the newline.
pub read_device_id_file-write_device_id_file :
    (file : Bytes → Option Bytes) (path id contents : Bytes)
    → write_device_id_file path id ≡ some contents
    → file path ≡ some contents
    → length id ≤ 63
    → Solid id
    → read_device_id_file file path 64 ≡ some id
unfolding read_device_id_file write_device_id_file device_id_in
read_device_id_file-write_device_id_file file path id contents wrote kept fits h =
    elim (Bool-cases (length path == 0 || length id == 0)) [
      | inl missing ↦ ground (arith, wrote, missing)
      | inr there ↦
          let whole : contents ≡ id ++ (10 ∷ []) = ground (arith, wrote, there) in
          let line : trim_end (c_str (take 63 (first_line contents))) ≡ id =
            device_id_line id (take 63 (first_line contents)) h (
              subst
                (λ t. (take 63 (first_line t) ≡ id) ⊎ (take 63 (first_line t) ≡ id ++ (10 ∷ [])))
                (sym whole) (rw (first_line-Solid id h) (take_line 63 id fits))) in
          ground (arith, there, kept, line)
    ]
