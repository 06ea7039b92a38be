-- ===== src/Tar/Directory/Announced.antt =====
-- `send_directories` announces every directory on the way, keeps the order of the headers right, and
-- touches neither the name nor the header of the file.
use qubes_core_agent_linux.Base.{
  ℕ, ◌+◌, ◌*◌, ◌<◌, ◌≡◌, refl, ◌∙◌, true, false, Bool-cases, inl, inr, List, [], ◌∷◌, ◌++◌, Option,
  none, some, length, Bytes, if◌then◌else◌,
}
use qubes_core_agent_linux.Tar.Source.{Source}
use qubes_core_agent_linux.Tar.Source.Closed.{IsClosed}
use qubes_core_agent_linux.Tar.Machine.{FileHeader, write_headers, State, done, allocate}
use qubes_core_agent_linux.Tar.Machine.Ends.{Ends, Ends-bind, Ends-if, Ends-weaken}
use qubes_core_agent_linux.Tar.Directory.{
  strtok_all, dir_found, extend_path, dir_header, grow, register, announce, directories,
  send_directories,
}
use qubes_core_agent_linux.Tar.Directory.Mode.{is_dir-s_ifdir}
use qubes_core_agent_linux.Tar.Directory.Ordering.{
  parents_from, parents_of, parents, AllFound, Fits, new_dirs, IsSound, IsSound-call,
  dir_found_last, dir_found-append,
}

module _ {S : Source} (W : S.World → Type 0) (closed : IsClosed S W) where
  -- What every statement keeps.
  pub record Keeps (t : State S) : Type 0 where
    pub world : W t.world
    pub sound : IsSound t

  -- What the statements of this part also keep, from a state on.
  pub record Follows (s t : State S) : Type 0 where
    pub kept : Keeps t
    pub same_name : t.untrusted_namebuf ≡ s.untrusted_namebuf
    pub same_hdr : t.hdr ≡ s.hdr
    pub more :
        (path : Bytes)
        → dir_found s.dirs_headers_sent path ≡ true
        → dir_found t.dirs_headers_sent path ≡ true

  pub Keeps-world : (s : State S) (w : S.World) → Keeps s → W w → Keeps (record s { world = w })
  Keeps-world s w k h = record {
    world = h;
    sound = record { table = k.sound.table; ordered = k.sound.ordered };
  }

  pub Follows-trans : {s t u : State S} → Follows s t → Follows t u → Follows s u
  Follows-trans f g = record {
    kept = g.kept;
    same_name = g.same_name ∙ f.same_name;
    same_hdr = g.same_hdr ∙ f.same_hdr;
    more = λ path h. g.more path (f.more path h);
  }

  Follows-refl : {s : State S} → Keeps s → Follows s s
  Follows-refl k = record { kept = k; same_name = refl; same_hdr = refl; more = λ _ h. h }

  pub allocate-Keeps :
      (n : ℕ) (s : State S)
      → Keeps s
      → Ends ⊥
          (λ _ t. Follows s t × (t.dirs_headers_sent ≡ s.dirs_headers_sent))
          Keeps
          (allocate n s)
  unfolding allocate
  allocate-Keeps n s k =
      let k' = Keeps-world s (S.malloc n s.world).1 k (closed.malloc n s.world k.world) in
      Ends-if ⊥ _ Keeps (S.malloc n s.world).0 _ _
        (record { kept = k'; same_name = refl; same_hdr = refl; more = λ _ h. h }, refl) k'

  grow-Keeps :
      (n : ℕ) (s : State S)
      → Keeps s
      → Ends ⊥ (λ _ t. Follows s t × (t.dirs_headers_sent ≡ s.dirs_headers_sent)) Keeps (grow n s)
  unfolding grow
  grow-Keeps n s k =
      let k' = Keeps-world s (S.malloc n s.world).1 k (closed.malloc n s.world k.world) in
      Ends-if ⊥ _ Keeps (S.malloc n s.world).0 _ _
        (record { kept = k'; same_name = refl; same_hdr = refl; more = λ _ h. h }, refl)
        (record {
          world = k'.world;
          sound = record { table = k.sound.table; ordered = k.sound.ordered };
        })

  module _ (h : FileHeader) (small : h.mode < 0x1000) where
    -- The last two statements of `register`.
    registered :
        (path : Bytes) (s : State S)
        → Keeps s
        → dir_found s.dirs_headers_sent path ≡ false
        → let t : State S = record s {
          dirs_headers_sent = s.dirs_headers_sent ++ (path ∷ []);
          calls = s.calls ++ (write_headers (dir_header h path) path ∷ []);
        } in
          Follows s t × (dir_found t.dirs_headers_sent path ≡ true)
    registered path s k new =
        let dir = is_dir-s_ifdir h.mode small in
        let c = write_headers (dir_header h path) path in
        let fits : Fits s.dirs_headers_sent c = rw dir new in
        let table : s.dirs_headers_sent ++ (path ∷ []) ≡ s.dirs_headers_sent ++ new_dirs c =
          rw dir in
        (
          record {
            kept = record { world = k.world; sound = IsSound-call s c _ k.sound fits table };
            same_name = refl;
            same_hdr = refl;
            more = λ p found. dir_found-append s.dirs_headers_sent (path ∷ []) p found;
          },
          dir_found_last s.dirs_headers_sent path,
        )

    register-Keeps :
        (path : Bytes) (s : State S)
        → Keeps s
        → dir_found s.dirs_headers_sent path ≡ false
        → Ends ⊥
            (λ _ t. Follows s t × (dir_found t.dirs_headers_sent path ≡ true))
            Keeps
            (register h path s)
    unfolding register
    register-Keeps path s k new =
        Ends-bind ⊥ _ _ Keeps (grow (8 * (length s.dirs_headers_sent + 1))) _ s (grow-Keeps _ s k)
          (λ _ t (f, e).
            Ends-bind ⊥ _ _ Keeps (grow (length path + 1)) _ t (grow-Keeps _ t f.kept)
              (λ _ u (g, e').
                let (r, found) = registered path u g.kept (rw (e', e) new) in
                (Follows-trans f (Follows-trans g r), found)))

    announce-Keeps :
        (path : Bytes) (s : State S)
        → Keeps s
        → Ends ⊥
            (λ _ t. Follows s t × (dir_found t.dirs_headers_sent path ≡ true))
            Keeps
            (announce h path s)
    unfolding announce
    announce-Keeps path s k =
        Ends-if ⊥ (λ _ t. Follows s t × (dir_found t.dirs_headers_sent path ≡ true)) Keeps
          s.dirs_lost _ _ tt found
      where
        found :
            Ends ⊥
              (λ _ t. Follows s t × (dir_found t.dirs_headers_sent path ≡ true))
              Keeps
              (if dir_found s.dirs_headers_sent path then done tt s else register h path s)
        found = elim (Bool-cases (dir_found s.dirs_headers_sent path)) [
          | inl old ↦ rw old (Follows-refl k, old)
          | inr new ↦ rw new (register-Keeps path s k new)
        ]

    -- What the loop comes to, from a state on.
    abbrev Reached : State S → Option Bytes → Bytes → List Bytes → Unit {0} → State S → Type 0
    Reached s path last_token tokens _ t =
        Follows s t × AllFound t.dirs_headers_sent (parents_from path last_token tokens)

    directories-Keeps :
        (path : Option Bytes) (last_token : Bytes) (tokens : List Bytes) (s : State S)
        → Keeps s
        → Ends ⊥ (Reached s path last_token tokens) Keeps (directories h path last_token tokens s)
    unfolding directories parents_from
    directories-Keeps path last_token [] s k = (Follows-refl k, tt)
    directories-Keeps path last_token (token ∷ tokens) s k =
        let next = extend_path path last_token in
        Ends-bind ⊥ _ _ Keeps (allocate (length next + 1)) _ s (allocate-Keeps _ s k) (λ _ t (f, e).
          Ends-bind ⊥ _ _ Keeps (announce h next) _ t (announce-Keeps next t f.kept)
            (λ _ u (g, found).
              Ends-weaken ⊥ (Reached u (some next) token tokens)
                (Reached s path last_token (token ∷ tokens)) Keeps _
                (directories-Keeps (some next) token tokens u g.kept)
                (λ _ v (r, all). (Follows-trans f (Follows-trans g r), (r.more next found, all)))))

    pub send_directories-Keeps :
        (name : Bytes) (s : State S)
        → Keeps s
        → Ends ⊥
            (λ _ t. Follows s t × AllFound t.dirs_headers_sent (parents name))
            Keeps
            (send_directories h (strtok_all name) s)
    unfolding send_directories parents parents_from
    send_directories-Keeps name s k = go (strtok_all name)
      where
        go :
            (tokens : List Bytes)
            → Ends ⊥
                (λ _ t. Follows s t × AllFound t.dirs_headers_sent (parents_of tokens))
                Keeps
                (send_directories h tokens s)
        go [] = (Follows-refl k, tt)
        go (token ∷ tokens) = directories-Keeps none token tokens s k
