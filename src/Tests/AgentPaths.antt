-- ===== src/Tests/AgentPaths.antt =====
-- Paths that qfile-agent takes apart.
use qubes_core_agent_linux.Base.{◌≡◌, refl, arith, codes}
use qubes_core_agent_linux.Agent.{parts, nonabsolute, get_abs_path, cut_last, split_loop}
use qubes_core_agent_linux.Agent.Parts.{IsSplit, split_loop-IsSplit}

below_cwd :
    split_loop 20 (get_abs_path (codes "/home/user") (codes "a/b//"))
    ≡ parts (codes "/home/user/a") (codes "b")
unfolding split_loop get_abs_path cut_last
below_cwd = refl

-- The root itself is refused as if it were not absolute.
root : split_loop 20 (get_abs_path (codes "/home/user") (codes "/")) ≡ nonabsolute
unfolding split_loop get_abs_path cut_last
root = refl

split_loop-IsSplit_example : IsSplit (codes "/etc/hosts/") (split_loop 12 (codes "/etc/hosts/"))
split_loop-IsSplit_example = split_loop-IsSplit 12 (codes "/etc/hosts/") (omega arith)
