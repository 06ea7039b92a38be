-- ===== src/Tar/Archive/Directories.antt =====
-- The directories on the way to a file are announced as the abstract view says.
use qubes_core_agent_linux.Base.{
  ℕ, ◌+◌, ◌*◌, refl, sym, ap, ◌∙◌, Bool-cases, inl, inr, false, ◌≡◌, if◌then◌else◌, List, [], ◌∷◌,
  ◌++◌, append_assoc, append-nil, Option, none, some, length, Bytes,
}
use qubes_core_agent_linux.Tar.Source.{Source, IsStream, HasMemory}
use qubes_core_agent_linux.Tar.Machine.{FileHeader, Call, State, allocate, done, fault}
use qubes_core_agent_linux.Tar.Directory.{
  strtok_all, dir_found, extend_path, register, announce, directories, send_directories,
}
use qubes_core_agent_linux.Tar.Directory.Ordering.{parents_from, parents_of, parents}
use qubes_core_agent_linux.Tar.Directory.Parts.{HasParts, above, parents-HasParts}
use qubes_core_agent_linux.Tar.Archive.{note_dir, table, fresh_call, fresh}
use qubes_core_agent_linux.Tar.Directory.{grow}
use qubes_core_agent_linux.Tar.Archive.Reaches.{Reaches, Reaches-bind, allocate-Reaches}

-- A state behind some calls, with another table and another world.
abbrev pub behind : {S : Source} → State S → List Bytes → List Call → S.World → State S
behind s dirs calls w = record s { world = w; dirs_headers_sent = dirs; calls = s.calls ++ calls }

grow-Reaches :
    {S : Source} (L : IsStream S) (memory : HasMemory S) (n : ℕ) (s : State S)
    → Reaches L (grow n s) tt (L.input s.world) (λ w. record s { world = w })
unfolding grow
grow-Reaches {S} L memory n s =
    ((S.malloc n s.world).1, L.malloc_input n s.world, rw (grow, memory.malloc_succeeds n s.world))

module _ {S : Source} (L : IsStream S) (memory : HasMemory S) (h : FileHeader) where
  -- The test of the table, and what follows on it.
  noted-Reaches :
      (path : Bytes) (s : State S)
      → Reaches L
          (if dir_found s.dirs_headers_sent path then done tt s else register h path s)
          tt
          (L.input s.world)
          (behind s (note_dir s.dirs_headers_sent path) (fresh_call h s.dirs_headers_sent path))
  unfolding register note_dir fresh_call
  noted-Reaches path s = elim (Bool-cases (dir_found s.dirs_headers_sent path)) [
    | inl old ↦
        rw old
          (s.world, refl, ap (λ c. done tt (record s { calls = c })) (sym (append-nil s.calls)))
    | inr new ↦ rw new (
        Reaches-bind L (grow (8 * (length s.dirs_headers_sent + 1))) _ s tt tt _ _ _ _
          (grow-Reaches L memory _ s)
          λ w i.
            Reaches-bind L (grow (length path + 1)) _ _ tt tt _ _ _ _
              (grow-Reaches L memory _ (record s { world = w })) λ w' i'. (w', i' ∙ i, refl))
  ]

  announce-Reaches :
      (path : Bytes) (s : State S)
      → s.dirs_lost ≡ false
      → Reaches L
          (announce h path s)
          tt
          (L.input s.world)
          (behind s (note_dir s.dirs_headers_sent path) (fresh_call h s.dirs_headers_sent path))
  unfolding announce
  announce-Reaches path s intact =
      let noted = if dir_found s.dirs_headers_sent path then done tt s else register h path s in
      let (w, i, e) = noted-Reaches path s in
      (w, i, ap (λ lost. if lost then fault else noted) intact ∙ e)

  directories-Reaches :
      (path : Option Bytes) (last_token : Bytes) (tokens : List Bytes) (s : State S)
      → s.dirs_lost ≡ false
      → Reaches L (directories h path last_token tokens s) tt (L.input s.world) (
          behind s
            (table s.dirs_headers_sent (parents_from path last_token tokens))
            (fresh h s.dirs_headers_sent (parents_from path last_token tokens)))
  unfolding directories parents_from table fresh
  directories-Reaches path last_token [] s intact =
      (s.world, refl, ap (λ c. done tt (record s { calls = c })) (sym (append-nil s.calls)))
  directories-Reaches path last_token (token ∷ tokens) s intact =
      let next = extend_path path last_token in
      let dirs = note_dir s.dirs_headers_sent next in
      let first = fresh_call h s.dirs_headers_sent next in
      let paths = parents_from (some next) token tokens in
      Reaches-bind L (allocate (length next + 1)) _ s tt tt _ _ _ _ (allocate-Reaches L memory _ s)
        λ w i.
          Reaches-bind L (announce h next) _ _ tt tt _ _ _ _
            (announce-Reaches next (record s { world = w }) intact)
            λ w' i'.
              let (w'', i'', e) =
                directories-Reaches (some next) token tokens (behind s dirs first w') intact in
              (
                w'',
                i'' ∙ i' ∙ i,
                e
                    ∙ ap
                        (λ c. done tt (record s {
                          world = w'';
                          dirs_headers_sent = table dirs paths;
                          calls = c;
                        }))
                        (append_assoc s.calls first (fresh h dirs paths)),
              )

  pub send_directories-Reaches :
      (name : Bytes) (s : State S)
      → s.dirs_lost ≡ false
      → Reaches L (send_directories h (strtok_all name) s) tt (L.input s.world) (
          behind s
            (table s.dirs_headers_sent (parents name))
            (fresh h s.dirs_headers_sent (parents name)))
  unfolding send_directories parents table fresh
  send_directories-Reaches name s intact = go (strtok_all name)
    where
      go :
          (tokens : List Bytes)
          → Reaches L (send_directories h tokens s) tt (L.input s.world) (
              behind s
                (table s.dirs_headers_sent (parents_of tokens))
                (fresh h s.dirs_headers_sent (parents_of tokens)))
      go [] = (s.world, refl, ap (λ c. done tt (record s { calls = c })) (sym (append-nil s.calls)))
      go (token ∷ tokens) = directories-Reaches none token tokens s intact

  -- For every name and every table that is not lost, where there is memory for every request: the run
  -- over the parts of the name returns, takes nothing from the input, and has announced, for the joins
  -- of its leading parts but the whole, from the outermost on, each one that is not in the table, which
  -- it then is; the parts of a name are what stands between slashes where that is not empty.
  pub send_directories-above :
      (name : Bytes) (s : State S)
      → s.dirs_lost ≡ false
      → (ps : List Bytes) × HasParts name ps
        × Reaches L (send_directories h (strtok_all name) s) tt (L.input s.world) (
            behind s
              (table s.dirs_headers_sent (above ps))
              (fresh h s.dirs_headers_sent (above ps)))
  send_directories-above name s intact =
      let (ps, parts, e) = parents-HasParts name in
      (ps, parts, rw (← e) (send_directories-Reaches name s intact))
