-- ===== src/OpenInVm/Name.antt =====
-- The buffer with the file's name that `send_file` of qubes-rpc/qopen-in-vm.c fills.
use qubes_core_agent_linux.Base.{
  ℕ, zero, suc, ◌+◌, ◌-◌, ◌≤◌, ◌<◌, ◌≡◌, refl, sym, ap, ◌∙◌, Bool, true, false, [], ◌∷◌, ◌++◌,
  append_assoc, Option, none, some, arith, length, drop, length-append, length-drop, take_all, All,
  Bool-cases, Option-cases, inl, inr, leb, ◌==◌, Bytes, NonNul, c_str, strncpy, strncat, put_nul,
  after_last, occurs, put_nul-append, length-put_nul,
}
use qubes_core_agent_linux.OpenInVm.{
  dvm_view_only_prefix, base_name, shorten, sendbuf_start, sendbuf_size, sendbuf,
}

-- What the search for the last occurrence of a byte leaves has the properties of the whole, and does
-- not have that byte again.
abbrev IsLast : ℕ → Bytes → Option Bytes → Type 0
IsLast d s none = occurs d s ≡ false
IsLast d s (some t) = (occurs d t ≡ false) × All NonNul t

after_last-IsLast : (d : ℕ) (s : Bytes) → All NonNul s → IsLast d s (after_last d s)
unfolding after_last occurs
after_last-IsLast d [] h = refl
after_last-IsLast d (c ∷ s) h = elim (Option-cases (after_last d s)) [
  | inl e ↦
      let last : IsLast d s none = rw e at (after_last-IsLast d s h.1) in
      elim (Bool-cases (c == d)) [ inl f ↦ rw (e, f) (last, h.1) | inr f ↦ rw (e, f) (rw f last) ]
  | inr (t, e) ↦ let last : IsLast d s (some t) = rw e at (after_last-IsLast d s h.1) in rw e last
]

-- A base name has no NUL and no slash.
abbrev IsPlain : Bytes → Type 0
IsPlain s = (occurs b'/' s ≡ false) × All NonNul s

base_name-IsPlain : (fname : Bytes) → All NonNul fname → IsPlain (base_name fname)
unfolding base_name
base_name-IsPlain fname h = elim (Option-cases (after_last b'/' fname)) [
  | inl e ↦
      let last : IsLast b'/' fname none = rw e at (after_last-IsLast b'/' fname h) in
      rw (base_name, e) (last, h)
  | inr (t, e) ↦
      let last : IsLast b'/' fname (some t) = rw e at (after_last-IsLast b'/' fname h) in
      rw (base_name, e) last
]

drop-IsPlain : (n : ℕ) (s : Bytes) → IsPlain s → IsPlain (drop n s)
unfolding drop occurs
drop-IsPlain zero s h = h
drop-IsPlain (suc n) [] h = h
drop-IsPlain (suc n) (c ∷ s) h = drop-IsPlain n s (ground (arith, h.0), h.1.1)

-- The part of the base name that is sent.
pub sent_name : Bytes → Bool → Bytes
sent_name fname view_only = shorten (sendbuf_size view_only) (base_name fname)

pub sent_name-IsPlain :
    (fname : Bytes) (view_only : Bool) → All NonNul fname → IsPlain (sent_name fname view_only)
unfolding sent_name shorten
sent_name-IsPlain fname view_only h =
    elim (Bool-cases (leb (sendbuf_size view_only) (length (base_name fname)))) [
      | inl e ↦ rw e (
          drop-IsPlain (length (base_name fname) - sendbuf_size view_only + 1) (base_name fname)
            (base_name-IsPlain fname h))
      | inr e ↦ rw e (base_name-IsPlain fname h)
    ]

length-shorten : (size : ℕ) (base : Bytes) → 0 < size → length (shorten size base) < size
unfolding shorten
length-shorten size base h = ground (arith, length-drop (length base - size + 1) base)

-- What stands before it.
abbrev pub lead : Bool → Bytes
lead true = dvm_view_only_prefix
lead false = []

pub lead-NonNul : (view_only : Bool) → All NonNul (lead view_only)
lead-NonNul true = ground arith
lead-NonNul false = tt

c_str-sendbuf_start : (view_only : Bool) → c_str (sendbuf_start view_only) ≡ lead view_only
unfolding c_str strncpy
c_str-sendbuf_start true = refl
c_str-sendbuf_start false = refl

length-sendbuf_start : (view_only : Bool) → length (sendbuf_start view_only) ≡ 256
unfolding strncpy
length-sendbuf_start true = refl
length-sendbuf_start false = refl

sendbuf_size-lead : (view_only : Bool) → sendbuf_size view_only + length (lead view_only) ≡ 256
sendbuf_size-lead true = refl
sendbuf_size-lead false = refl

length-sent_name :
    (fname : Bytes) (view_only : Bool) → length (sent_name fname view_only) < sendbuf_size view_only
unfolding sent_name
length-sent_name fname true = length-shorten (sendbuf_size true) (base_name fname) (omega arith)
length-sent_name fname false = length-shorten (sendbuf_size false) (base_name fname) (omega arith)

-- The string that the buffer holds.
unfoldable pub text : Bytes → Bool → Bytes
text fname view_only = lead view_only ++ sent_name fname view_only

pub text-length : (fname : Bytes) (view_only : Bool) → length (text fname view_only) ≤ 255
unfolding text
text-length fname view_only = omega (
  arith,
  length-append (lead view_only) (sent_name fname view_only),
  length-sent_name fname view_only,
  sendbuf_size-lead view_only,
)

named : Bytes → Bool → Bytes
named fname view_only =
    strncat (sendbuf_start view_only) (sent_name fname view_only) (sendbuf_size view_only - 1)

named-text :
    (fname : Bytes) (view_only : Bool)
    → named fname view_only
      ≡ text fname view_only
        ++ (0 ∷ drop (length (text fname view_only) + 1) (sendbuf_start view_only))
unfolding named strncat text
named-text fname view_only =
    let all =
      take_all (sendbuf_size view_only - 1) (sent_name fname view_only)
        (omega (arith, length-sent_name fname view_only)) in
    rw
      (
        c_str-sendbuf_start view_only,
        all,
        length-append (lead view_only) (sent_name fname view_only),
      )
      (sym (append_assoc (lead view_only) (sent_name fname view_only) _))

-- The buffer holds its text and ends it.
pub sendbuf-text :
    (fname : Bytes) (view_only : Bool)
    → ((more : Bytes) × (sendbuf fname view_only ≡ text fname view_only ++ (0 ∷ more)))
unfolding sendbuf named sent_name
sendbuf-text fname view_only =
    let (more, e) =
      put_nul-append 255 (text fname view_only)
        (drop (length (text fname view_only) + 1) (sendbuf_start view_only))
        (text-length fname view_only) in
    (more, ap (put_nul 255) (named-text fname view_only) ∙ e)

-- For every file name and in both modes, the buffer keeps its 256 bytes: no byte is written behind it.
pub length-sendbuf : (fname : Bytes) (view_only : Bool) → length (sendbuf fname view_only) ≡ 256
unfolding sendbuf named sent_name
length-sendbuf fname view_only =
    let size : length (named fname view_only) ≡ 256 =
      ap length (named-text fname view_only)
      ∙ omega (
        arith,
        length-append (text fname view_only)
            (0 ∷ drop (length (text fname view_only) + 1) (sendbuf_start view_only)),
        length-drop (length (text fname view_only) + 1) (sendbuf_start view_only),
        length-sendbuf_start view_only,
        text-length fname view_only,
      ) in
    length-put_nul 255 (named fname view_only) (omega (arith, size)) ∙ size
