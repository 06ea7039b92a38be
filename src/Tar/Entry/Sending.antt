-- ===== src/Tar/Entry/Sending.antt =====
-- How the header and the content of a file go out in `ustar_rd` of qubes-rpc/tar2qfile.c, whatever the
-- library replies.
use qubes_core_agent_linux.Base.{
  ℕ, ◌-◌, ◌%◌, ◌<◌, ◌≡◌, ◌⊎◌, true, arith, ltb→lt, refl, ap, ◌∙◌, Bool-cases, inl, inr, List, [],
  ◌∷◌, ◌++◌, append_assoc, Option, none, some, ltb, bit_or, Bytes, c_str,
}
use qubes_core_agent_linux.Tar.Header.{block_size}
use qubes_core_agent_linux.Tar.Source.{
  Source, CopyStatus, copy_file_ok, copy_file_write_error, other,
}
use qubes_core_agent_linux.Tar.Machine.{
  FileHeader, Call, write_headers, content, set_block, wait_for_result, gui_fatal, State, Run, done,
  no_memory, exits, fault, no_fuel, ◌>>=◌,
}
use qubes_core_agent_linux.Tar.Entry.{
  s_ifreg, copied_or_exit, copy_content, drop_padding, send_file,
}

-- What is called behind the content before the process ends: a copy that could not write is followed
-- by what the receiver says, an unknown failure is told to the user, and a padding that is cut off is
-- followed by what the receiver says.
abbrev pub last_calls : Bytes → CopyStatus → List Call
last_calls name copy_file_ok = wait_for_result ∷ []
last_calls name copy_file_write_error = set_block ∷ (wait_for_result ∷ [])
last_calls name (other n) = gui_fatal name (other n) ∷ []

-- What is left of the last block of a file of this length is asked for once, and given.
abbrev pub IsPadded : (S : Source) → ℕ → S.World → S.World → Type 0
IsPadded S len before after =
    ((len % block_size ≡ 0) × (after ≡ before))
    ⊎ ((0 < len % block_size)
        × (((pad : Bytes) × ((S.read_all (block_size - len % block_size) before).0 ≡ some pad))
            × (after ≡ (S.read_all (block_size - len % block_size) before).1)))

-- It is asked for, and not given, where the copy itself was complete.
abbrev pub IsCut : (S : Source) → ℕ → S.World → CopyStatus → Type 0
IsCut S len before copy_file_ok =
    (0 < len % block_size) × ((S.read_all (block_size - len % block_size) before).0 ≡ none)
IsCut S len before _ = Unit

module _ {S : Source} where
  -- The calls of a run for a file of a length, with the outside world behind the copy and the status
  -- and the bytes that the library replied.
  abbrev pub Sent :
      State S → FileHeader → Bytes → ℕ → S.World → CopyStatus → Bytes → Run S (Unit {0}) → Type 0
  Sent s h name len w status bytes (done _ t) =
      (status ≡ copy_file_ok)
      × (t.calls ≡ s.calls ++ (write_headers h name ∷ (content status bytes ∷ [])))
      × IsPadded S len w t.world
  Sent s h name len w status bytes (exits n t) =
      (n ≡ 1)
      × (t.calls
          ≡ s.calls ++ (write_headers h name ∷ (content status bytes ∷ last_calls name status)))
      × IsCut S len w status
  Sent s h name len w status bytes (no_memory _) = ⊥
  Sent s h name len w status bytes fault = ⊥
  Sent s h name len w status bytes no_fuel = ⊥

  module _ (s : State S) (h : FileHeader) (name bytes : Bytes) where
    -- The calls so far, one behind the other.
    abbrev so_far : CopyStatus → List Call
    so_far status = (s.calls ++ (write_headers h name ∷ [])) ++ (content status bytes ∷ [])

    joined :
        (status : CopyStatus) (last : List Call)
        → so_far status ++ last ≡ s.calls ++ (write_headers h name ∷ (content status bytes ∷ last))
    joined status last = simp append_assoc refl

    alone :
        (status : CopyStatus)
        → so_far status ≡ s.calls ++ (write_headers h name ∷ (content status bytes ∷ []))
    alone status = append_assoc s.calls (write_headers h name ∷ []) (content status bytes ∷ [])

    padding-Sent :
        (t : State S)
        → t.calls ≡ so_far copy_file_ok
        → Sent s h name t.hdr.filelen t.world copy_file_ok bytes (drop_padding t)
    unfolding drop_padding
    padding-Sent t e = elim (Bool-cases (ltb 0 (t.hdr.filelen % block_size))) [
      | inr full ↦ rw full (refl, e ∙ alone copy_file_ok, inl (ground (arith, full), refl))
      | inl part ↦
          rw part (go part (S.read_all (block_size - t.hdr.filelen % block_size) t.world).0 refl)
    ]
      where
        next : State S
        next = record t { world = (S.read_all (block_size - t.hdr.filelen % block_size) t.world).1 }

        go :
            ltb 0 (t.hdr.filelen % block_size) ≡ true
            → (pad : Option Bytes)
            → (S.read_all (block_size - t.hdr.filelen % block_size) t.world).0 ≡ pad
            → Sent s h name t.hdr.filelen t.world copy_file_ok bytes (elim pad [
              | none ↦ exits 1 (record next { calls = next.calls ++ (wait_for_result ∷ []) })
              | some _ ↦ done tt next
            ])
        go part none given = (
          refl,
          ap (λ c. c ++ (wait_for_result ∷ [])) e ∙ joined copy_file_ok (wait_for_result ∷ []),
          (ltb→lt 0 (t.hdr.filelen % block_size) part, given),
        )
        go part (some pad) given = (
          refl,
          e ∙ alone copy_file_ok,
          inr (ltb→lt 0 (t.hdr.filelen % block_size) part, ((pad, given), refl)),
        )

    copied-Sent :
        (status : CopyStatus) (t : State S)
        → t.calls ≡ so_far status
        → c_str t.untrusted_namebuf ≡ name
        → Sent s h name t.hdr.filelen t.world status bytes
            ((copied_or_exit status >>= λ _. drop_padding) t)
    unfolding copied_or_exit
    copied-Sent copy_file_ok t e named = padding-Sent t e
    copied-Sent copy_file_write_error t e named = (
      refl,
      ap (λ c. (c ++ (set_block ∷ [])) ++ (wait_for_result ∷ [])) e
          ∙ append_assoc (so_far copy_file_write_error) (set_block ∷ []) (wait_for_result ∷ [])
          ∙ joined copy_file_write_error (set_block ∷ (wait_for_result ∷ [])),
      tt,
    )
    copied-Sent (other n) t e named = (
      refl,
      rw named (
          ap (λ c. c ++ (gui_fatal name (other n) ∷ [])) e
          ∙ joined (other n) (gui_fatal name (other n) ∷ [])),
      tt,
    )

  -- Whatever the library replies, for every file: its header goes out first, with the type of a
  -- regular file and the whole name, then the content, in one piece. The run goes on only where the
  -- copy was complete, with nothing else sent and with the rest of the last block read from the input,
  -- where the length is no multiple of a block, and else nothing. In every other case the process ends
  -- with status 1, behind what is due for the reply: the look at what the receiver says, where the rest
  -- of the last block does not come, or where writing failed, with a descriptor that blocks; or a
  -- message for the user with the name of the file.
  pub send_file-Sent :
      (s : State S)
      → let r = S.copy_file_with_crc s.hdr.filelen s.world in
        Sent s
          (record (s.hdr) { mode = bit_or s.hdr.mode s_ifreg })
          (c_str s.untrusted_namebuf)
          s.hdr.filelen
          r.world
          r.status
          r.bytes
          (send_file s)
  unfolding send_file copy_content copied_or_exit
  send_file-Sent s =
      let r = S.copy_file_with_crc s.hdr.filelen s.world in
      let h = record (s.hdr) { mode = bit_or s.hdr.mode s_ifreg } in
      let name = c_str s.untrusted_namebuf in
      copied-Sent s h name r.bytes r.status
        (record s {
          world = r.world;
          hdr = h;
          calls = (s.calls ++ (write_headers h name ∷ [])) ++ (content r.status r.bytes ∷ []);
        })
        refl refl
