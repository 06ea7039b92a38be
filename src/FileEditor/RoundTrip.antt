-- ===== src/FileEditor/RoundTrip.antt =====
-- The name on its way from qubes-rpc/qopen-in-vm.c to qubes-rpc/vm-file-editor.c, and what the latter
-- makes of any name.
use qubes_core_agent_linux.Base.{
  ℕ, ◌≡◌, ◌≢◌, ◌↔◌, ◌⊎◌, ◌++◌, refl, ap, ◌∙◌, Bool, true, false, [], ◌∷◌, append-nil, Option, none,
  some, arith, length, drop, All, All-append, All-drop, Bool-cases, inl, inr, ◌==◌, Bytes, NonNul,
  c_str, c_str-append, c_str-NonNul, strncmp_eq, put_nul, occurs, put_nul-append,
}
use qubes_core_agent_linux.OpenInVm.{dvm_view_only_prefix, sendbuf}
use qubes_core_agent_linux.OpenInVm.Name.{
  lead, lead-NonNul, sent_name, sent_name-IsPlain, text, text-length, sendbuf-text,
}
use qubes_core_agent_linux.FileEditor.{
  Request, troublesome, clean_byte, clean, split_prefix, read_name,
}

text-NonNul :
    (fname : Bytes) (view_only : Bool) → All NonNul fname → All NonNul (text fname view_only)
unfolding text
text-NonNul fname view_only h =
    All-append NonNul (lead view_only) (sent_name fname view_only) (lead-NonNul view_only)
      (sent_name-IsPlain fname view_only h).1

text-slash :
    (fname : Bytes) (view_only : Bool)
    → All NonNul fname
    → occurs b'/' (text fname view_only) ≡ false
unfolding text occurs
text-slash fname true h = (sent_name-IsPlain fname true h).0
text-slash fname false h = (sent_name-IsPlain fname false h).0

received-text :
    (fname : Bytes) (view_only : Bool)
    → All NonNul fname
    → c_str (put_nul 255 (sendbuf fname view_only)) ≡ text fname view_only
unfolding c_str
received-text fname view_only h =
    let (more, e) = sendbuf-text fname view_only in
    let (more', f) = put_nul-append 255 (text fname view_only) more (text-length fname view_only) in
    ap (λ b. c_str (put_nul 255 b)) e
    ∙ ap c_str f
    ∙ c_str-append (text fname view_only) (0 ∷ more') (text-NonNul fname view_only h)
    ∙ append-nil (text fname view_only)

-- What the receiver is to take the name for: the mode that was sent, but for an editable file whose
-- name itself begins with the prefix.
abbrev pub IsExpected : Bool → Bytes → Request → Type 0
IsExpected true name r = r ≡ record { view_only = true; fname = name }
IsExpected false name r =
    ((rest : Bytes) × (name ≡ dvm_view_only_prefix ++ rest)
      × (r ≡ record { view_only = true; fname = rest }))
    ⊎ (((rest : Bytes) → name ≢ dvm_view_only_prefix ++ rest)
        × (r ≡ record { view_only = false; fname = name }))

strncmp_eq-prefix :
    (s lead : Bytes)
    → All NonNul lead
    → (strncmp_eq s lead (length lead) ≡ true) ↔ ((rest : Bytes) × (s ≡ lead ++ rest))
unfolding strncmp_eq
strncmp_eq-prefix s [] h = (λ _. (s, refl), λ _. refl)
strncmp_eq-prefix [] (d ∷ lead) h = (λ e. absurd (ground arith), λ b. cc (b.1))
strncmp_eq-prefix (c ∷ s) (d ∷ lead) h =
    let ih = strncmp_eq-prefix s lead h.1 in
    (
      λ e.
          let tail : strncmp_eq s lead (length lead) ≡ true = ground arith in
          let (rest, same) = ih.0 tail in (rest, ground arith),
      λ (rest, same).
          let tail : s ≡ lead ++ rest = ground arith in
          let again = ih.1 (rest, tail) in ground arith,
    )

drop-prefix : (lead rest : Bytes) → drop (length lead) (lead ++ rest) ≡ rest
unfolding drop
drop-prefix [] rest = refl
drop-prefix (c ∷ lead) rest = drop-prefix lead rest

split_prefix-Expected : (name : Bytes) → IsExpected false name (split_prefix name)
unfolding split_prefix
split_prefix-Expected name =
    let begins = strncmp_eq-prefix name dvm_view_only_prefix (lead-NonNul true) in
    elim (Bool-cases (strncmp_eq name dvm_view_only_prefix (length dvm_view_only_prefix))) [
      | inl e ↦
          let (rest, same) = begins.0 e in
          let left : drop (length dvm_view_only_prefix) name ≡ rest =
            ap (drop (length dvm_view_only_prefix)) same ∙ drop-prefix dvm_view_only_prefix rest in
          rw e (inl (rest, same, ap (λ t. record { view_only = true; fname = t }) left))
      | inr e ↦ rw e (inr (λ rest same. ground (arith, e, begins.1 (rest, same)), refl))
    ]

split_text :
    (fname : Bytes) (view_only : Bool)
    → IsExpected view_only
        (clean (sent_name fname view_only))
        (split_prefix (clean (text fname view_only)))
unfolding text split_prefix clean strncmp_eq drop occurs
split_text fname true = refl
split_text fname false = split_prefix-Expected (clean (sent_name fname false))

-- For every file name, in both modes: what the sender puts into the buffer is not refused by the
-- receiver, which takes it for the last part of the name that fits, with the troublesome characters
-- replaced, in the mode that was sent; but an editable file whose name, with the characters replaced,
-- begins with the prefix is taken for a view-only one with the rest of the name.
pub read_name-sendbuf :
    (fname : Bytes) (view_only : Bool)
    → All NonNul fname
    → (r : Request) × (read_name (sendbuf fname view_only) ≡ some r)
      × IsExpected view_only (clean (sent_name fname view_only)) r
unfolding read_name
read_name-sendbuf fname view_only h = (
  split_prefix (clean (text fname view_only)),
  rw (received-text fname view_only h, text-slash fname view_only h) refl,
  split_text fname view_only,
)

-- A byte that the receiver lets through.
abbrev pub IsSafeByte : ℕ → Type 0
IsSafeByte c = (c ≢ 0) × (c ≢ b'/') × (occurs c troublesome ≡ false)

clean_byte-IsSafeByte : (c : ℕ) → c ≢ 0 → c ≢ b'/' → IsSafeByte (clean_byte c)
unfolding occurs
clean_byte-IsSafeByte c h k = elim (Bool-cases (occurs c troublesome)) [
  | inl e ↦ rw e (omega arith, omega arith, refl)
  | inr e ↦ rw e (h, k, e)
]

clean-Safe : (s : Bytes) → All NonNul s → occurs b'/' s ≡ false → All IsSafeByte (clean s)
unfolding clean occurs
clean-Safe [] h e = tt
clean-Safe (c ∷ s) h e = elim (Bool-cases (c == b'/')) [
  | inl f ↦ let wrong : true ≡ false = rw f at e in cc
  | inr f ↦
      let rest : occurs b'/' s ≡ false = rw f at e in
      (clean_byte-IsSafeByte c h.0 (ground arith), clean-Safe s h.1 rest)
]

split_prefix-Safe : (s : Bytes) → All IsSafeByte s → All IsSafeByte (split_prefix s).fname
unfolding split_prefix
split_prefix-Safe s h =
    elim (Bool-cases (strncmp_eq s dvm_view_only_prefix (length dvm_view_only_prefix))) [
      | inl e ↦ rw (split_prefix, e) (All-drop IsSafeByte (length dvm_view_only_prefix) s h)
      | inr e ↦ rw (split_prefix, e) h
    ]

-- Whatever bytes come for a name: if it is not refused, it has no NUL, no slash and none of the
-- characters that are to be replaced.
pub read_name-IsSafeByte :
    (buf : Bytes) (r : Request) → read_name buf ≡ some r → All IsSafeByte r.fname
unfolding read_name
read_name-IsSafeByte buf r e =
    let s = c_str (put_nul 255 buf) in
    elim (Bool-cases (occurs b'/' s)) [
      | inl f ↦ let wrong : ◌≡◌ {A = Option Request} none (some r) = rw f at e in cc
      | inr f ↦
          let same : some (split_prefix (clean s)) ≡ some r = rw f at e in
          let equal : split_prefix (clean s) ≡ r = cc in
          rw (← equal)
            (split_prefix-Safe (clean s) (clean-Safe s (c_str-NonNul (put_nul 255 buf)) f))
    ]
