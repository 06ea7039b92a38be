-- ===== src/Tests/Messages.antt =====
-- A message of gui-fatal.
use qubes_core_agent_linux.Base.{codes}
use qubes_core_agent_linux.Process.{Obeys}
use qubes_core_agent_linux.GuiFatal.{gui_fatal, gui_nonfatal}
use qubes_core_agent_linux.GuiFatal.Dialog.{begun, dialog, fatal_dialog, gui_message-dialog}

gui_message-dialog_example :
    Obeys dialog begun (gui_nonfatal (codes "open a"))
    × Obeys fatal_dialog begun (gui_fatal (codes "open a"))
gui_message-dialog_example = gui_message-dialog (codes "open a")
