-- ===== src/Tests/Programs.antt =====
-- The programs that pass files on, at concrete data.
use qubes_core_agent_linux.Base.{
  ◌≡◌, ◌∷◌, [], refl, true, false, some, length, take, drop, replicate, ◌++◌, All, NonNul, Bytes,
  codes, c_str, strncpy, strncat, strncmp_eq, put_nul, after_last, occurs,
}
use qubes_core_agent_linux.Process.{Obeys}
use qubes_core_agent_linux.Unpacker.{main as unpacker_main}
use qubes_core_agent_linux.Unpacker.Stages.{begun as unpacker_begun, confinement}
use qubes_core_agent_linux.Unpacker.Confinement.{main-confinement}
use qubes_core_agent_linux.OpenInVm.{main as opener_main, sendbuf, base_name, shorten}
use qubes_core_agent_linux.OpenInVm.Stages.{begun as opener_begun}
use qubes_core_agent_linux.OpenInVm.Name.{sent_name, length-sendbuf}
use qubes_core_agent_linux.FileEditor.{Request, clean, split_prefix, read_name}
use qubes_core_agent_linux.FileEditor.RoundTrip.{
  IsExpected, IsSafeByte, read_name-sendbuf, read_name-IsSafeByte,
}
use qubes_core_agent_linux.Tests.Checks.{all_nonnul, all_nonnul_sound}

main-confinement_example :
    Obeys confinement
      (unpacker_begun
        (codes "qfile-unpacker" ∷ codes "1000" ∷ codes "/tmp/in" ∷ codes "-w" ∷ codes "5" ∷ []))
      (unpacker_main
        (codes "qfile-unpacker" ∷ codes "1000" ∷ codes "/tmp/in" ∷ codes "-w" ∷ codes "5" ∷ []))
main-confinement_example =
    main-confinement
      (codes "qfile-unpacker" ∷ codes "1000" ∷ codes "/tmp/in" ∷ codes "-w" ∷ codes "5" ∷ [])

abbrev some_path : Bytes
some_path = codes "/home/user/my file.txt"

length-sendbuf_example : length (sendbuf some_path true) ≡ 256
length-sendbuf_example = length-sendbuf some_path true

some_path-NonNul : All NonNul some_path
unfolding all_nonnul
some_path-NonNul = all_nonnul_sound some_path refl

abbrev editable_path : Bytes
editable_path = codes "/home/user/view-only-a"

editable_path-NonNul : All NonNul editable_path
unfolding all_nonnul
editable_path-NonNul = all_nonnul_sound editable_path refl

read_name-sendbuf_example :
    (r : Request) × (read_name (sendbuf editable_path false) ≡ some r)
    × IsExpected false (clean (sent_name editable_path false)) r
read_name-sendbuf_example = read_name-sendbuf editable_path false editable_path-NonNul

-- A space is replaced.
read_some_path :
    read_name (sendbuf some_path true)
    ≡ some (record { view_only = true; fname = codes "my_file.txt" })
unfolding read_name sendbuf base_name shorten after_last occurs strncat strncpy c_str put_nul take
    drop clean split_prefix strncmp_eq
read_some_path = refl

-- An editable file whose name begins like the prefix is taken for a view-only one.
read_ambiguous :
    read_name (sendbuf (codes "view-only-a") false)
    ≡ some (record { view_only = true; fname = codes "a" })
unfolding read_name sendbuf base_name shorten after_last occurs strncat strncpy c_str put_nul take
    drop clean split_prefix strncmp_eq
read_ambiguous = refl

abbrev raw_name : Bytes
raw_name = codes "a;b" ++ replicate 253 0

read_raw : read_name raw_name ≡ some (record { view_only = false; fname = codes "a_b" })
unfolding read_name occurs c_str put_nul take drop clean split_prefix strncmp_eq
read_raw = refl

read_name-IsSafeByte_example : All IsSafeByte (codes "a_b")
read_name-IsSafeByte_example =
    read_name-IsSafeByte raw_name (record { view_only = false; fname = codes "a_b" }) read_raw
