-- ===== src/SystemMonitor/Menu.antt =====
-- The window of instructions: Tools/Applications/SystemMonitor/src/Windows/MenuWindow.cpp and its
-- header.
use robot_framework_ros.Prelude.{Bool, true, false, List, [], ◌∷◌, if◌then◌else◌}
use robot_framework_ros.Prelude.Text.{Text, text}
use robot_framework_ros.SystemMonitor.Window.{BaseWindow, base_update}

pub data InstructionMode : Type 0 where
  node : InstructionMode

-- `drawn` is the lines that were printed last.
pub record MenuWindow (D : Type 0) : Type 0 where
  pub base : BaseWindow D
  pub instruction_mode : InstructionMode
  pub drawn : List Text

-- The instructions of a mode.
abbrev instructions : InstructionMode → List Text
instructions node = text "L: Change Log Level." ∷ []

module _ {D : Type 0} where
  unfoldable pub update_menu_window : MenuWindow D → Bool × MenuWindow D
  update_menu_window w =
      if w.base.has_win
      then (true, record w { drawn = instructions w.instruction_mode })
      else (false, w)

  unfoldable pub update_menu : D → MenuWindow D → Bool × MenuWindow D
  unfolding update_menu_window base_update
  update_menu now w = update_menu_window (record w { base = base_update now w.base })
