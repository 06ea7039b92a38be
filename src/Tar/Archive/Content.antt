-- ===== src/Tar/Archive/Content.antt =====
-- The header and the content of a file, with what fills its last block.
use qubes_core_agent_linux.Base.{
  ◌-◌, ◌%◌, ◌≡◌, refl, sym, ap, ◌∙◌, Bool-cases, inl, inr, [], ◌∷◌, ◌++◌, append_assoc, arith,
  length, take, drop, replicate, length-append, length-replicate, take-append_eq, drop-append_eq,
  ltb, Bytes, c_str,
}
use qubes_core_agent_linux.Tar.Header.{block_size}
use qubes_core_agent_linux.Tar.Source.{Source, IsStream, copy_file_ok}
use qubes_core_agent_linux.Tar.Machine.{write_headers, content, State, done}
use qubes_core_agent_linux.Tar.Entry.{copied_or_exit, copy_content, drop_padding, send_file}
use qubes_core_agent_linux.Tar.Archive.{padding, with_type, file_calls}
use qubes_core_agent_linux.Tar.Archive.Reaches.{Reaches, Reaches-bind}

module _ {S : Source} (L : IsStream S) where
  copy_content-Reaches :
      (bytes rest : Bytes) (s : State S)
      → L.input s.world ≡ bytes ++ rest
      → s.hdr.filelen ≡ length bytes
      → Reaches L
          (copy_content s)
          tt
          rest
          (λ w. record s { world = w; calls = s.calls ++ (content copy_file_ok bytes ∷ []) })
  unfolding copy_content copied_or_exit
  copy_content-Reaches bytes rest s e n =
      let (ok, whole, left) =
        L.copy_enough s.hdr.filelen s.world
          (omega (arith, n, ap length e, length-append bytes rest)) in
      let all : take s.hdr.filelen (L.input s.world) ≡ bytes =
        ap (take s.hdr.filelen) e ∙ take-append_eq s.hdr.filelen bytes rest (sym n) in
      let less : drop s.hdr.filelen (L.input s.world) ≡ rest =
        ap (drop s.hdr.filelen) e ∙ drop-append_eq s.hdr.filelen bytes rest (sym n) in
      ((S.copy_file_with_crc s.hdr.filelen s.world).world, left ∙ less, rw (ok, whole, all))

  drop_padding-Reaches :
      (rest : Bytes) (s : State S)
      → L.input s.world ≡ replicate (padding s.hdr.filelen) 0 ++ rest
      → Reaches L (drop_padding s) tt rest (λ w. record s { world = w })
  unfolding drop_padding padding
  drop_padding-Reaches rest s e = elim (Bool-cases (ltb 0 (s.hdr.filelen % block_size))) [
    | inl part ↦
        let n = block_size - s.hdr.filelen % block_size in
        let zeros : L.input s.world ≡ replicate n 0 ++ rest = rw part at e in
        let size = length-replicate n 0 in
        let (got, left) =
          L.read_all_enough n s.world
            (omega (arith, ap length zeros, length-append (replicate n 0) rest, size)) in
        let less : drop n (L.input s.world) ≡ rest =
          ap (drop n) zeros ∙ drop-append_eq n (replicate n 0) rest size in
        rw part ((S.read_all n s.world).1, left ∙ less, rw got)
    | inr full ↦ let same : L.input s.world ≡ rest = rw full at e in rw full (s.world, same, refl)
  ]

  pub send_file-Reaches :
      (bytes rest : Bytes) (s : State S)
      → L.input s.world ≡ bytes ++ (replicate (padding (length bytes)) 0 ++ rest)
      → s.hdr.filelen ≡ length bytes
      → Reaches L (send_file s) tt rest (λ w. record s {
        world = w;
        hdr = with_type s.hdr;
        calls = s.calls ++ file_calls s.hdr (c_str s.untrusted_namebuf) bytes;
      })
  unfolding send_file
  send_file-Reaches bytes rest s e n =
      let h = with_type s.hdr in
      let name = c_str s.untrusted_namebuf in
      let begun : State S = record s { hdr = h; calls = s.calls ++ (write_headers h name ∷ []) } in
      Reaches-bind L copy_content _ begun tt tt _ _ _ _
        (copy_content-Reaches bytes (replicate (padding (length bytes)) 0 ++ rest) begun e n)
        λ w i.
          let (w', i', f) =
            drop_padding-Reaches rest
              (record begun { world = w; calls = begun.calls ++ (content copy_file_ok bytes ∷ []) })
              (i ∙ ap (λ k. replicate (padding k) 0 ++ rest) (sym n)) in
          (
            w',
            i',
            f
                ∙ ap (λ c. done tt (record s { world = w'; hdr = h; calls = c }))
                    (append_assoc s.calls (write_headers h name ∷ [])
                      (content copy_file_ok bytes ∷ [])),
          )
