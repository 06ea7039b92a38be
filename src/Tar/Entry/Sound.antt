-- ===== src/Tar/Entry/Sound.antt =====
-- `ustar_rd` keeps the order of the headers right, on every path through it.
use qubes_core_agent_linux.Base.{
  ◌-◌, ◌%◌, ◌<◌, ◌≡◌, refl, sym, not, [], ◌∷◌, ◌++◌, append-nil, arith, ltb, bit_or, Bytes, c_str,
}
use qubes_core_agent_linux.Tar.Header.{block_size, typeflag, first_byte, ustar_id}
use qubes_core_agent_linux.Tar.Name.{assemble_name}
use qubes_core_agent_linux.Tar.Filter.{apply_filters}
use qubes_core_agent_linux.Tar.Source.{
  Source, CopyStatus, copy_file_ok, copy_file_write_error, other,
}
use qubes_core_agent_linux.Tar.Source.Closed.{IsClosed}
use qubes_core_agent_linux.Tar.Machine.{
  Call, write_headers, content, set_block, wait_for_result, State, allocate,
}
use qubes_core_agent_linux.Tar.Machine.Ends.{Ends, Ends-bind, Ends-if, Ends-elim}
use qubes_core_agent_linux.Tar.Directory.{strtok_all, send_directories}
use qubes_core_agent_linux.Tar.Directory.Mode.{is_dir-s_ifreg}
use qubes_core_agent_linux.Tar.Directory.Ordering.{parents, AllFound, Fits, new_dirs, IsSound-call}
use qubes_core_agent_linux.Tar.Directory.Announced.{
  Keeps, Keeps-world, allocate-Keeps, send_directories-Keeps,
}
use qubes_core_agent_linux.Tar.Entry.{
  type_flag, TypeFlag, reg_type, read_fields, copied_or_exit, copy_content, drop_padding, send_file,
  extract_file, read_regular, by_type, ustar_rd,
}

module _ {S : Source} (W : S.World → Type 0) (closed : IsClosed S W) where
  abbrev pub Kept : State S → Type 0
  Kept = Keeps W closed

  -- A call that is no header of a directory, and fits.
  pub Kept-call :
      (s : State S) (c : Call)
      → Kept s
      → Fits s.dirs_headers_sent c
      → new_dirs c ≡ []
      → Kept (record s { calls = s.calls ++ (c ∷ []) })
  Kept-call s c k fits e = record {
    world = k.world;
    sound =
        IsSound-call s c s.dirs_headers_sent k.sound fits
          (rw e (sym (append-nil s.dirs_headers_sent)));
  }

  copied_or_exit-Kept :
      (status : CopyStatus) (s : State S)
      → Kept s
      → Ends ⊥ (λ _ t. Kept t) Kept (copied_or_exit status s)
  unfolding copied_or_exit
  copied_or_exit-Kept copy_file_ok s k = k
  copied_or_exit-Kept copy_file_write_error s k =
      Kept-call _ _ (Kept-call s set_block k tt refl) tt refl
  copied_or_exit-Kept (other n) s k = Kept-call s _ k tt refl

  copy_content-Kept : (s : State S) → Kept s → Ends ⊥ (λ _ t. Kept t) Kept (copy_content s)
  unfolding copy_content
  copy_content-Kept s k =
      let r = S.copy_file_with_crc s.hdr.filelen s.world in
      let moved =
        Keeps-world W closed s r.world k
          (closed.copy_file_with_crc s.hdr.filelen s.world k.world) in
      copied_or_exit-Kept r.status _ (Kept-call _ (content r.status r.bytes) moved tt refl)

  drop_padding-Kept : (s : State S) → Kept s → Ends ⊥ (λ _ t. Kept t) Kept (drop_padding s)
  unfolding drop_padding
  drop_padding-Kept s k =
      let n = block_size - s.hdr.filelen % block_size in
      let moved =
        Keeps-world W closed s (S.read_all n s.world).1 k (closed.read_all n s.world k.world) in
      Ends-if ⊥ _ Kept (ltb 0 (s.hdr.filelen % block_size)) _ _
        (Ends-elim ⊥ _ Kept (S.read_all n s.world).0 _ _ (Kept-call _ wait_for_result moved tt refl)
          (λ _. moved))
        k

  send_file-Kept :
      (s : State S)
      → Kept s
      → s.hdr.mode < 0x1000
      → AllFound s.dirs_headers_sent (parents (c_str s.untrusted_namebuf))
      → Ends ⊥ (λ _ t. Kept t) Kept (send_file s)
  unfolding send_file
  send_file-Kept s k small found =
      let file = is_dir-s_ifreg s.hdr.mode small in
      let start : State S = record s { hdr = record (s.hdr) { mode = bit_or s.hdr.mode 0x8000 } } in
      let k' : Kept start = record {
        world = k.world;
        sound = record { table = k.sound.table; ordered = k.sound.ordered };
      } in
      let headed =
        Kept-call start (write_headers start.hdr (c_str s.untrusted_namebuf)) k' (rw file found)
          (rw file) in
      Ends-bind ⊥ (λ _ t. Kept t) _ Kept copy_content _ _ (copy_content-Kept _ headed)
        (λ _ t h. drop_padding-Kept t h)

  extract_file-Kept :
      (s : State S) → Kept s → s.hdr.mode < 0x1000 → Ends ⊥ (λ _ t. Kept t) Kept (extract_file s)
  unfolding extract_file
  extract_file-Kept s k small =
      let name = c_str s.untrusted_namebuf in
      Ends-bind ⊥ _ _ Kept (allocate s.hdr.namelen) _ s (allocate-Keeps W closed _ s k)
        (λ _ t (f, _).
          Ends-bind ⊥ _ _ Kept (send_directories s.hdr (strtok_all name)) _ t
            (send_directories-Keeps W closed s.hdr small name t f.kept)
            (λ _ u (g, found).
              Ends-bind ⊥ (λ _ v. Kept v) _ Kept send_file _ u
                (send_file-Kept u g.kept (rw (g.same_hdr, f.same_hdr) small)
                  (rw (g.same_name, f.same_name) found))
                (λ _ v h. h)))

  -- The fields that the order of the headers does not depend on.
  pub Kept-fields :
      (s t : State S)
      → Kept s
      → t.world ≡ s.world
      → t.calls ≡ s.calls
      → t.dirs_headers_sent ≡ s.dirs_headers_sent
      → Kept t
  Kept-fields s t k w c d = record {
    world = rw w k.world;
    sound = record { table = rw (c, d) k.sound.table; ordered = rw c k.sound.ordered };
  }

  read_regular-Kept :
      (s : State S) → Kept s → s.hdr.mode < 0x1000 → Ends ⊥ (λ _ t. Kept t) Kept (read_regular s)
  unfolding read_regular
  read_regular-Kept s k small =
      let d = apply_filters s.untrusted_namebuf s.filters in
      let t : State S = record s { filters = d.after } in
      let k' : Kept t = Kept-fields s t k refl refl refl in
      Ends-if ⊥ (λ _ t. Kept t) Kept (not d.should_extract) _ _ k' (extract_file-Kept t k' small)

  by_type-Kept :
      (f : TypeFlag) (s : State S)
      → Kept s
      → s.hdr.mode < 0x1000
      → Ends ⊥ (λ _ t. Kept t) Kept (by_type f s)
  unfolding by_type
  by_type-Kept reg_type s k small = read_regular-Kept s k small
  by_type-Kept _ s k small = k

  read_fields-Kept :
      (buf : Bytes) (s : State S)
      → Kept s
      → Ends ⊥ (λ _ t. Kept t × (t.hdr.mode < 0x1000)) Kept (read_fields buf s)
  unfolding read_fields
  read_fields-Kept buf s k =
      Ends-elim ⊥ (λ _ t. Kept t × (t.hdr.mode < 0x1000)) Kept
        (assemble_name buf s.gnu_hack_string s.untrusted_namebuf) _ _ tt
        (λ r. (Kept-fields s _ k refl refl refl, omega arith))

  pub ustar_rd-Kept :
      (buf : Bytes) (s : State S) → Kept s → Ends ⊥ (λ _ t. Kept t) Kept (ustar_rd buf s)
  unfolding ustar_rd
  ustar_rd-Kept buf s k =
      Ends-if ⊥ (λ _ t. Kept t) Kept (not (ustar_id buf block_size)) _ _ k
        (Ends-bind ⊥ _ _ Kept (read_fields buf) _ s (read_fields-Kept buf s k)
          (λ _ t (h, small). by_type-Kept (type_flag (first_byte typeflag buf)) t h small))
