-- ===== src/Agent/Progress/Reports.antt =====
-- Which reports `notify_progress` of qubes-rpc/qfile-agent.c makes, and to whom.
use qubes_core_agent_linux.Base.{
  ℕ, ◌+◌, ◌≤◌, ◌<◌, ◌≡◌, ◌⊎◌, refl, sym, ap, Bool, Bool-cases, true, false, not, inl, inr, Option,
  none, some, arith, ltb, Bytes, codes, strcmp_eq, if◌then◌else◌, ◌||◌,
}
use qubes_core_agent_linux.Process.{Protocol, Obeys, up_to, Obeys-bind, ◌>>◌, returns, request}
use qubes_core_agent_linux.Agent.Walk.{Flag}
use qubes_core_agent_linux.Agent.Progress.{
  Written, written, broken_pipe, failed, Call, getenv, write, wait_for_result, progress,
  console_message, gui_message, is_done, is_normal, Counters, to_console, to_gui, after_write,
  of_kind, do_notify_progress, report, notify_progress,
}
use qubes_core_agent_linux.Agent.Progress.Stages.{Stage, silent, is_broken, next, IsKind}

module _ (strtoull strtoul : Bytes → ℕ) (delta total : ℕ) (flag : Flag) where
  abbrev pub ToConsole : Stage → ℕ → Bytes → Type 0
  ToConsole s fd text =
      IsKind (codes "console") s
      × (fd ≡ 2)
      × ((size : Bytes) × (s.size ≡ some size)
          × ((text ≡ console_message total (strtoull size))
              ⊎ ((text ≡ codes "\n") × (is_done flag ≡ true))))

  abbrev pub ToWindow : Stage → ℕ → Bytes → Type 0
  ToWindow s fd text =
      IsKind (codes "gui") s
      × (text ≡ gui_message total)
      × ((saved : Bytes) × (s.saved ≡ some saved) × (fd ≡ strtoul saved))

  unfoldable pub Allowed : Stage → Call → Type 0
  Allowed s (getenv v) = s.waited ≡ is_normal flag
  Allowed s wait_for_result = (is_normal flag ≡ true) × (s ≡ silent)
  Allowed s (write fd text) = (s.asked ≡ true) × (ToConsole s fd text ⊎ ToWindow s fd text)

  -- Where a report is due.
  abbrev pub IsDue : Counters → Type 0
  IsDue c = (c.prev_total + delta < total) ⊎ (is_normal flag ≡ false)

  -- What `notify_progress` is to leave behind.
  abbrev pub Counted : Counters → Stage → Counters → Type 0
  Counted c s d =
      (d.total ≡ total)
      × (((s.asked ≡ true) × IsDue c × (d.prev_total ≡ total))
          ⊎ ((s ≡ silent)
              × (is_normal flag ≡ true)
              × (total ≤ c.prev_total + delta)
              × (d.prev_total ≡ c.prev_total)))

  abbrev pub reports : Counters → Protocol progress Counters
  reports c = record {
    Stage = Stage;
    Allowed = Allowed;
    next = next;
    Result = Counted c;
    Exit = λ s n. (n ≡ 32) × (s.broken ≡ true) × IsKind (codes "gui") s × IsDue c;
  }

  module _ (c : Counters) (due : IsDue c) where
    -- Behind the three questions.
    record Knows (size : Option Bytes) (kind : Bytes) (saved : Option Bytes) (s : Stage)
        : Type 0 where
      knows_size : s.size ≡ size
      knows_kind : s.kind ≡ some kind
      knows_saved : s.saved ≡ saved
      has_asked : s.asked ≡ true

    abbrev Asked : Stage → Unit {0} → Type 0
    Asked s _ = s.asked ≡ true

    Knows-write :
        {size : Option Bytes} {kind : Bytes} {saved : Option Bytes} {s : Stage} (r : Written)
        → Knows size kind saved s
        → Knows size kind saved (record s { broken = is_broken r })
    Knows-write r k = record {
      knows_size = k.knows_size;
      knows_kind = k.knows_kind;
      knows_saved = k.knows_saved;
      has_asked = k.has_asked;
    }

    to_console-Obeys :
        (size : Option Bytes) (kind : Bytes) (saved : Option Bytes) (s : Stage)
        → Knows size kind saved s
        → Obeys
            (up_to (reports c) (λ t _. Knows size kind saved t))
            s
            (to_console strtoull strtoul delta kind size total flag)
    unfolding to_console Allowed
    to_console-Obeys none kind saved s k = k
    to_console-Obeys (some size) kind saved s k =
        elim (Bool-cases (strcmp_eq kind (codes "console"))) [
          | inr other ↦ rw other k
          | inl console ↦ rw console (
            (
              k.has_asked,
              inl ((kind, k.knows_kind, console), refl, (size, k.knows_size, inl refl)),
            ),
            λ r. line_end console r (is_done flag) refl,
          )
        ]
      where
        line_end :
            strcmp_eq kind (codes "console") ≡ true
            → (r : Written) (b : Bool) → is_done flag ≡ b
            → Obeys
                (up_to (reports c) (λ t _. Knows (some size) kind saved t))
                (record s { broken = is_broken r })
                (if b then (request (write 2 (codes "\n")) >> returns tt) else returns tt)
        line_end console r false e = Knows-write r k
        line_end console r true e = (
          (
            k.has_asked,
            inl ((kind, k.knows_kind, console), refl, (size, k.knows_size, inr (refl, e))),
          ),
          λ r'. Knows-write r' (Knows-write r k),
        )

    to_gui-Obeys :
        (size : Option Bytes) (kind : Bytes) (saved : Option Bytes) (s : Stage)
        → Knows size kind saved s
        → Obeys (up_to (reports c) Asked) s (to_gui strtoull strtoul delta kind saved total)
    unfolding to_gui Allowed
    to_gui-Obeys size kind none s k = k.has_asked
    to_gui-Obeys size kind (some saved) s k = elim (Bool-cases (strcmp_eq kind (codes "gui"))) [
      | inr other ↦ rw other k.has_asked
      | inl gui ↦ rw gui (
        (k.has_asked, inr ((kind, k.knows_kind, gui), refl, (saved, k.knows_saved, refl))),
        λ r. ends gui r,
      )
    ]
      where
        ends :
            strcmp_eq kind (codes "gui") ≡ true
            → (r : Written)
            → Obeys
                (up_to (reports c) Asked)
                (record s { broken = is_broken r })
                (after_write strtoull strtoul delta r)
        ends gui broken_pipe = (refl, refl, (kind, k.knows_kind, gui), due)
        ends gui written = k.has_asked
        ends gui failed = k.has_asked

    of_kind-Obeys :
        (size kind saved : Option Bytes) (s : Stage)
        → s ≡ record {
          waited = s.waited;
          asked = true;
          size = size;
          kind = kind;
          saved = saved;
          broken = s.broken;
        }
        → Obeys
            (up_to (reports c) Asked)
            s
            (of_kind strtoull strtoul delta kind size saved total flag)
    of_kind-Obeys size none saved s e = ap (λ (t : Stage). t.asked) e
    of_kind-Obeys size (some kind) saved s e =
        Obeys-bind (up_to (reports c) Asked) (λ t _. Knows size kind saved t) s
          (to_console strtoull strtoul delta kind size total flag)
          (λ _. to_gui strtoull strtoul delta kind saved total)
          (to_console-Obeys size kind saved s (record {
            knows_size = ap (λ (t : Stage). t.size) e;
            knows_kind = ap (λ (t : Stage). t.kind) e;
            knows_saved = ap (λ (t : Stage). t.saved) e;
            has_asked = ap (λ (t : Stage). t.asked) e;
          }))
          λ t _ k. to_gui-Obeys size kind saved t k

    do_notify_progress-Obeys :
        (s : Stage)
        → s.waited ≡ is_normal flag
        → Obeys (up_to (reports c) Asked) s (do_notify_progress strtoull strtoul delta total flag)
    unfolding do_notify_progress Allowed
    do_notify_progress-Obeys s w =
        (w, λ size. (w, λ kind. (w, λ saved. of_kind-Obeys size kind saved _ refl)))

    report-Obeys : Obeys (up_to (reports c) Asked) silent (report strtoull strtoul delta total flag)
    unfolding Allowed
    report-Obeys = go (is_normal flag) refl
      where
        go :
            (b : Bool)
            → is_normal flag ≡ b
            → Obeys (up_to (reports c) Asked) silent (
                (if b then request wait_for_result else returns tt)
                >> do_notify_progress strtoull strtoul delta total flag)
        go true e =
            ((e, refl), λ _. do_notify_progress-Obeys (record silent { waited = true }) (sym e))
        go false e = do_notify_progress-Obeys silent (sym e)

pub notify_progress-Obeys :
    (strtoull strtoul : Bytes → ℕ) (delta : ℕ) (c : Counters) (size : ℕ) (flag : Flag)
    → Obeys
        (reports strtoull strtoul delta (c.total + size) flag c)
        silent
        (notify_progress strtoull strtoul delta c size flag)
unfolding notify_progress
notify_progress-Obeys strtoull strtoul delta c size flag =
    elim (Bool-cases (ltb (c.prev_total + delta) (c.total + size) || not (is_normal flag))) [
      | inl e ↦ rw e (
          Obeys-bind (reports strtoull strtoul delta (c.total + size) flag c) _ silent
            (report strtoull strtoul delta (c.total + size) flag) _
            (report-Obeys strtoull strtoul delta (c.total + size) flag c (due e))
            (λ t _ asked. (refl, inl (asked, due e, refl))))
      | inr early ↦ rw early (refl, inr (refl, ground (arith, early), ground (arith, early), refl))
    ]
  where
    due :
        (ltb (c.prev_total + delta) (c.total + size) || not (is_normal flag)) ≡ true
        → IsDue strtoull strtoul delta (c.total + size) flag c
    due e = elim (Bool-cases (is_normal flag)) [
      | inr other ↦ inr other
      | inl normal ↦ inl (ground (arith, e, normal))
    ]
