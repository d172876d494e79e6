-- ===== src/SystemMonitor/Node/Armed.antt =====
-- What the header shows of an arm command.
use robot_framework_ros.Prelude.{
  ℕ, ◌-◌, ◌≡◌, true, List, [], ◌∷◌, ◌++◌, length, replicate, leb, ◌==◌, ◌&&◌, if◌then◌else◌,
}
use robot_framework_ros.Prelude.Run.{ok, threw}
use robot_framework_ros.Prelude.Text.{Text, text}
use robot_framework_ros.Platform.{Doubles, CoreLib}
use robot_framework_ros.Messages.{ArmCommand}
use robot_framework_ros.Translate.Infrastructure.{arm_command_to_core}
use robot_framework_ros.SystemMonitor.Window.{
  Color, red_color, green_color, blue_color, white_color, base_update,
}
use robot_framework_ros.SystemMonitor.Header.{armed_state_color, update_header, update_header_lem}
use robot_framework_ros.SystemMonitor.Node.{MonitorNode, arm_command_callback}

-- The color that a table gives to a state, red if it has none.
abbrev color_in : List (ℕ × Color) → ℕ → Color
color_in [] state = red_color
color_in ((s, color) ∷ rest) state = if state == s then color else color_in rest state

-- A text with blanks up to 40 characters.
abbrev pub filled : Text → Text
filled s = s ++ replicate (40 - length s) b' '

module _ ⦃core : CoreLib⦄ where
  abbrev pub state_color : ℕ → Color
  state_color = color_in (
      (core.armed_state_armed, blue_color)
      ∷ (core.armed_state_disarmed_cannotarm, red_color)
      ∷ (core.armed_state_disarmed, green_color)
      ∷ (core.armed_state_arming, green_color)
      ∷ [])

module _ {D : Type 0} ⦃fl : Doubles D⦄ ⦃core : CoreLib⦄ where
  -- After an arm command, an update of a header window that is set draws two lines, each filled up to
  -- 40 characters: "Time: " and the time that the update is given, in white, and "Armed State: " and
  -- the name of the state in the command, in blue if it is ARMED, green if it is DISARMED or ARMING,
  -- and red if it is DISARMED_CANNOTARM or any other. The command and the time are kept. If one of the
  -- two lines is longer than 40 characters, the update throws.
  pub arm_command_shown :
      (msg : ArmCommand) (now : D) (n : MonitorNode D)
      → n.header.base.has_win ≡ true
      → let time = text "Time: " ++ fl.to_text now in
        let state = text "Armed State: " ++ core.pretty_armed_state msg.armed_state in
        update_header now (arm_command_callback msg n).header ≡ (
          if leb (length time) 40 && leb (length state) 40
          then ok (
            true,
            record n.header {
              base = record n.header.base { current_time_sec = now };
              latest_arm_command = record { armed_state = msg.armed_state };
              drawn = (white_color, filled time) ∷ (state_color msg.armed_state, filled state) ∷ [];
            },
          )
          else threw)
  unfolding arm_command_callback arm_command_to_core armed_state_color base_update
  arm_command_shown msg now n set = update_header_lem now (arm_command_callback msg n).header set
