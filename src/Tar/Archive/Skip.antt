-- ===== src/Tar/Archive/Skip.antt =====
-- The content of a member that is not wanted is dropped with its padding: the input moves over it,
-- or it is read.
use native.Mathlib.Nat.{le_refl}
use qubes_core_agent_linux.Base.{
  ℕ, zero, suc, ◌+◌, ◌-◌, ◌^◌, ◌≤◌, ◌<◌, min, ◌≡◌, refl, sym, ap, ◌∙◌, Bool, false, not,
  if◌then◌else◌, Bool-cases, inl, inr, ◌++◌, append_assoc, arith, length, drop, replicate,
  length-append, length-replicate, length-drop, drop-append_eq, drop-drop, ◌==◌, Bytes,
}
use qubes_core_agent_linux.Tar.Header.{block_size}
use qubes_core_agent_linux.Tar.Source.{Source, IsStream, PipeOrFile}
use qubes_core_agent_linux.Tar.Machine.{State, Run, done, ◌>>◌}
use qubes_core_agent_linux.Tar.Processor.{
  round_up, seek_result, seek_loop, read_loop, seek_content, read_content, skip_content,
}
use qubes_core_agent_linux.Tar.Archive.{padding}
use qubes_core_agent_linux.Tar.Archive.Reaches.{Reaches, bind_done}

-- Below the top of a `size_t` the rounding adds the padding.
pub round_up-padding : (n : ℕ) → n + 512 < 2 ^ 64 → round_up n ≡ n + padding n
unfolding round_up padding
round_up-padding n h = ground arith

module _ {S : Source} (L : IsStream S) where
  read_loop-Reaches :
      (fuel n : ℕ) (s : State S)
      → n ≤ fuel
      → n ≤ length (L.input s.world)
      → Reaches L (read_loop fuel n s) tt (drop n (L.input s.world)) (λ w. record s { world = w })
  unfolding read_loop drop
  read_loop-Reaches zero n s enough there =
      let none_left : n ≡ 0 = omega arith in rw none_left (s.world, refl, refl)
  read_loop-Reaches (suc fuel) n s enough there = elim (Bool-cases (n == 0)) [
    | inl end ↦
        let none_left : n ≡ 0 = ground arith in
        rw end (s.world, ap (λ k. drop k (L.input s.world)) (sym none_left), refl)
    | inr more ↦
        let m = min n block_size in
        let (got, left) = L.read_all_enough m s.world (omega arith) in
        let here : State S = record s { world = (S.read_all m s.world).1 } in
        let size : n - m ≤ length (L.input here.world) =
          omega (arith, ap length left, length-drop m (L.input s.world)) in
        let (w, i, e) = read_loop-Reaches fuel (n - m) here (ground arith) size in
        let all : m + (n - m) ≡ n = omega arith in
        (
          w,
          i
              ∙ ap (drop (n - m)) left
              ∙ drop-drop (n - m) m (L.input s.world)
              ∙ ap (λ k. drop k (L.input s.world)) all,
          rw (more, got) e,
        )
  ]

  -- The same for a statement that may find out that it is not possible to move in the input.
  abbrev pub Skips : {A : Type 0} → Run S A → A → Bytes → State S → Type 0
  Skips r a rest s =
      (w : S.World) × (b : Bool) × (L.input w ≡ rest)
      × (r ≡ done a (record s { world = w; use_seek = b }))

  read_content-Skips :
      (n : ℕ) (s : State S)
      → s.use_seek ≡ false
      → n ≤ length (L.input s.world)
      → Skips (read_content n s) tt (drop n (L.input s.world)) s
  unfolding read_content
  read_content-Skips n s reads there =
      let (w, i, e) = read_loop-Reaches n n s (le_refl n) there in
      (w, s.use_seek, i, ap (λ b. if not b then read_loop n n s else done tt s) reads ∙ e)

  module _ (seek : PipeOrFile S L) where
    -- The two statements, in an input of any kind.
    skip-Skips :
        (n : ℕ) (s : State S)
        → n ≤ length (L.input s.world)
        → Skips ((seek_content n >> read_content n) s) tt (drop n (L.input s.world)) s
    unfolding seek_content seek_loop seek_result read_content
    skip-Skips n s there = elim (Bool-cases s.use_seek) [
      | inl seeks ↦ elim (seek.lseek_lem n s.world) [
        | inl (not_moved, same) ↦
            let next : State S = record s { world = (S.lseek n s.world).1; use_seek = false } in
            let tried : seek_content n s ≡ done tt next = rw (seeks, not_moved) in
            let (w, b, i, e) =
              read_content-Skips n next refl (omega (arith, ap length same, there)) in
            (
              w,
              b,
              i ∙ ap (drop n) same,
              bind_done (seek_content n) (λ _. read_content n) s tried ∙ e,
            )
        | inr (did, left) ↦
            let next : State S = record s { world = (S.lseek n s.world).1 } in
            let went : seek_content n s ≡ done tt next = rw (seeks, did) in
            let stays : read_content n next ≡ done tt next = rw seeks in
            (
              (S.lseek n s.world).1,
              s.use_seek,
              left,
              bind_done (seek_content n) (λ _. read_content n) s went ∙ stays,
            )
      ]
      | inr reads ↦
          let stays : seek_content n s ≡ done tt s = rw reads in
          let (w, b, i, e) = read_content-Skips n s reads there in
          (w, b, i, bind_done (seek_content n) (λ _. read_content n) s stays ∙ e)
    ]

    pub skip_content-Skips :
        (bytes rest : Bytes) (s : State S)
        → L.input s.world ≡ bytes ++ (replicate (padding (length bytes)) 0 ++ rest)
        → s.hdr.filelen ≡ length bytes
        → length bytes + 512 < 2 ^ 64
        → Skips (skip_content s) tt rest s
    unfolding skip_content
    skip_content-Skips bytes rest s e n small =
        let fill = replicate (padding (length bytes)) 0 in
        let whole = bytes ++ fill in
        let size : length whole ≡ round_up s.hdr.filelen =
          length-append bytes fill
          ∙ ap (λ k. length bytes + k) (length-replicate (padding (length bytes)) 0)
          ∙ sym (ap round_up n ∙ round_up-padding (length bytes) small) in
        let input : L.input s.world ≡ whole ++ rest = e ∙ sym (append_assoc bytes fill rest) in
        let (w, b, i, f) =
          skip-Skips (round_up s.hdr.filelen) s
            (omega (arith, ap length input, length-append whole rest, size)) in
        (
          w,
          b,
          i
              ∙ ap (drop (round_up s.hdr.filelen)) input
              ∙ drop-append_eq (round_up s.hdr.filelen) whole rest size,
          f,
        )
