-- ===== src/Unpacker/Stages.antt =====
-- The protocol that `main` of qubes-rpc/qfile-unpacker.c keeps to.
use qubes_core_agent_linux.Base.{
  ℕ, ◌/◌, ◌%◌, ◌^◌, ◌≡◌, Bool, true, false, List, ◌∷◌, ◌++◌, Option, none, some, Bytes, codes,
}
use qubes_core_agent_linux.Process.{child, parent, Protocol}
use qubes_core_agent_linux.Unpacker.{
  Call, Reply, unpacker, Passwd, strtol, getuid, getenv, getpwuid, setgid, initgroups, setfsuid,
  chdir, mount, fork, chroot, setuid, do_unpack, waitpid, umount2, mount_flags,
}

-- How far the run is: with a user and a directory given in the arguments, or with none; with the number
-- of the user, and the directory if it is given, and then the account; with the home directory of that
-- account; and with the incoming directory.
pub data Stage : Type 0 where
  given : Bytes → Bytes → Stage
  unknown : Stage
  known : ℕ → Option Bytes → Stage
  looked_up grouped all_grouped : ℕ → Option Bytes → Passwd → Stage
  homed ready : ℕ → Bytes → Stage
  inside mounted confined rooted unprivileged : ℕ → Stage
  unpacked : ℕ → Stage
  waiting : ℕ → Stage
  reaped released : ℕ → Stage

abbrev pub begun : List Bytes → Stage
begun (program ∷ user ∷ dir ∷ options) = given user dir
begun _ = unknown

-- Behind the account: the directory that was given, or one that is still to be found.
abbrev pub settled : ℕ → Option Bytes → Bytes → Stage
settled uid (some dir) home = ready uid dir
settled uid none home = homed uid home

-- The directory for what another domain sends.
abbrev pub incoming : Bytes → Bytes → Bytes
incoming home remote_domain = home ++ (codes "/QubesIncoming/" ++ remote_domain)

abbrev pub asked : Bool → ℕ → Option Bytes → Stage → Stage
asked true uid d s = s
asked false uid d s = known uid d

-- The calls that the protocol does not restrict.
abbrev IsHarmless : Call → Type 0
IsHarmless (strtol _) = ⊥
IsHarmless getuid = ⊥
IsHarmless (getenv _) = ⊥
IsHarmless (getpwuid _) = ⊥
IsHarmless (setgid _) = ⊥
IsHarmless (initgroups _ _) = ⊥
IsHarmless (setfsuid _) = ⊥
IsHarmless (chdir _) = ⊥
IsHarmless (mount _ _ _) = ⊥
IsHarmless fork = ⊥
IsHarmless (chroot _) = ⊥
IsHarmless (setuid _) = ⊥
IsHarmless do_unpack = ⊥
IsHarmless (waitpid _) = ⊥
IsHarmless (umount2 _) = ⊥
IsHarmless _ = Unit

-- The number of the user is read from the arguments or is that of the process; its account is
-- looked up; its groups are set, then its file-system user; the incoming directory is entered and
-- mounted over itself with the restrictions; the child changes its root to it and its user to the
-- one looked up, and only then unpacks; the parent waits for the child, then unmounts.
unfoldable pub Allowed : Stage → Call → Type 0
Allowed (given user dir) (strtol text) = text ≡ user
Allowed unknown getuid = Unit
Allowed (known uid d) (getpwuid u) = u ≡ uid
Allowed (homed uid home) (getenv v) = v ≡ codes "QREXEC_REMOTE_DOMAIN"
Allowed (looked_up uid d p) (setgid g) = g ≡ p.pw_gid
Allowed (grouped uid d p) (initgroups n g) = (n ≡ p.pw_name) × (g ≡ p.pw_gid)
Allowed (all_grouped uid d p) (setfsuid u) = u ≡ p.pw_uid
Allowed (ready uid dir) (chdir d) = d ≡ dir
Allowed (inside uid) (mount s t flags) = (s ≡ codes ".") × (t ≡ codes ".") × (flags ≡ mount_flags)
Allowed (mounted uid) fork = Unit
Allowed (confined uid) (chroot d) = d ≡ codes "."
Allowed (rooted uid) (setuid u) = u ≡ uid
Allowed (unprivileged uid) do_unpack = Unit
Allowed (waiting pid) (waitpid p) = p ≡ pid
Allowed (reaped ret) (umount2 d) = d ≡ codes "."
Allowed s c = IsHarmless c

-- A stage is reached where the program's test finds no failure. For `setfsuid`, which gives the number
-- of the user before the call and never a negative one, that says nothing of success. A number of a
-- user is cut to 32 bits.
unfoldable pub next : Stage → (c : Call) → Reply c → Stage
next (given user dir) (strtol text) n =
    asked n.has_errno (n.value % 2 ^ 32) (some dir) (given user dir)
next unknown getuid uid = known uid none
next (known uid d) (getpwuid u) (some p) = looked_up uid d p
next (homed uid home) (getenv v) (some remote_domain) = ready uid (incoming home remote_domain)
next (looked_up uid d p) (setgid g) true = grouped uid d p
next (grouped uid d p) (initgroups n g) true = all_grouped uid d p
next (all_grouped uid d p) (setfsuid u) true = settled uid d p.pw_dir
next (ready uid dir) (chdir d) true = inside uid
next (inside uid) (mount s t flags) true = mounted uid
next (mounted uid) fork child = confined uid
next (mounted uid) fork (parent pid) = waiting pid
next (confined uid) (chroot d) true = rooted uid
next (rooted uid) (setuid u) true = unprivileged uid
next (unprivileged uid) do_unpack r = unpacked r
next (waiting pid) (waitpid p) (some ret) = reaped ret
next (reaped ret) (umount2 d) true = released ret
next s c r = s

-- The child returns what the unpacking returned, the parent the status of a child that exited, and
-- every other end is with status 1.
abbrev pub Result : Stage → ℕ → Type 0
Result (unpacked r) n = n ≡ r
Result (released ret) n = (ret % 128 ≡ 0) × (n ≡ ret / 256 % 256)
Result _ n = ⊥

abbrev pub confinement : Protocol unpacker ℕ
confinement = record {
  Stage = Stage;
  Allowed = Allowed;
  next = next;
  Result = Result;
  Exit = λ _ n. n ≡ 1;
}
