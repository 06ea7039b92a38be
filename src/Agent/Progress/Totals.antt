-- ===== src/Agent/Progress/Totals.antt =====
-- How far the last report of `notify_progress` of qubes-rpc/qfile-agent.c can be behind.
use qubes_core_agent_linux.Base.{ℕ, ◌+◌, ◌≤◌, ◌≡◌, inl, inr, List, [], ◌∷◌, arith, Bytes}
use qubes_core_agent_linux.Process.{Protocol, Obeys, Obeys-bind, Obeys-forget}
use qubes_core_agent_linux.Agent.Walk.{Flag}
use qubes_core_agent_linux.Agent.Progress.{progress, Counters, notify_progress, notify_all}
use qubes_core_agent_linux.Agent.Progress.Reports.{Counted, reports, notify_progress-Obeys}
use qubes_core_agent_linux.Agent.Progress.Stages.{Stage, silent}

-- The bytes that were sent, and the distance to the last report.
abbrev pub sizes : List (ℕ × Flag) → ℕ
sizes [] = 0
sizes ((size, flag) ∷ rest) = size + sizes rest

pub record IsClose (delta : ℕ) (c : Counters) : Type 0 where
  pub behind : c.prev_total ≤ c.total
  pub close : c.total ≤ c.prev_total + delta

-- Any replies, and an end with status 32.
abbrev pub whatever : (Counters → Type 0) → Protocol progress Counters
whatever R = record {
  Stage = Unit {0};
  Allowed = λ _ _. Unit {0};
  next = λ _ _ _. tt;
  Result = λ _ d. R d;
  Exit = λ _ n. n ≡ 32;
}

-- Close to the last report, with a total.
abbrev pub Totals : ℕ → ℕ → Counters → Type 0
Totals delta n d = IsClose delta d × (d.total ≡ n)

notify_progress-IsClose :
    (strtoull strtoul : Bytes → ℕ) (delta : ℕ) (c : Counters) (size : ℕ) (flag : Flag)
    → IsClose delta c
    → Obeys
        (whatever (Totals delta (c.total + size)))
        tt
        (notify_progress strtoull strtoul delta c size flag)
notify_progress-IsClose strtoull strtoul delta c size flag h =
    Obeys-forget (reports strtoull strtoul delta (c.total + size) flag c) (whatever _) silent tt
      (λ _ _. tt) (λ s d h _. counted s d h) (λ _ _ e _. e.0) _
      (notify_progress-Obeys strtoull strtoul delta c size flag)
  where
    counted :
        (s : Stage) (d : Counters)
        → Counted strtoull strtoul delta (c.total + size) flag c s d
        → Totals delta (c.total + size) d
    counted s d (t, inl (asked, due, p)) =
        (record { behind = omega (arith, t, p); close = omega (arith, t, p) }, t)
    counted s d (t, inr (quiet, normal, close, p)) =
        (record { behind = omega (arith, t, p, h.behind); close = omega (arith, t, p, close) }, t)

-- Whatever sizes come with whatever flags, for all replies, where the last report is at most `delta`
-- bytes behind the total at first: where the reports return, the total is the sum of the sizes and
-- what it was before, and the last report is at most `delta` bytes behind it; else it ends the program
-- with status 32.
pub notify_all-IsClose :
    (strtoull strtoul : Bytes → ℕ) (delta : ℕ) (c : Counters) (reported : List (ℕ × Flag))
    → IsClose delta c
    → Obeys
        (whatever (Totals delta (c.total + sizes reported)))
        tt
        (notify_all strtoull strtoul delta c reported)
unfolding notify_all
notify_all-IsClose strtoull strtoul delta c [] h = (h, omega arith)
notify_all-IsClose strtoull strtoul delta c ((size, flag) ∷ rest) h =
    Obeys-bind (whatever _) (λ _. Totals delta (c.total + size)) tt
      (notify_progress strtoull strtoul delta c size flag) _
      (notify_progress-IsClose strtoull strtoul delta c size flag h)
      λ _ d (close, t).
        Obeys-forget (whatever (Totals delta (d.total + sizes rest)))
          (whatever (Totals delta (c.total + (size + sizes rest)))) tt tt (λ _ _. tt)
          (λ _ e r _. (r.0, omega (arith, t, r.1))) (λ _ _ e _. e)
          (notify_all strtoull strtoul delta d rest)
          (notify_all-IsClose strtoull strtoul delta d rest close)
