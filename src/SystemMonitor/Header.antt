-- ===== src/SystemMonitor/Header.antt =====
-- The window of the time and the armed state:
-- Tools/Applications/SystemMonitor/src/Windows/HeaderWindow.cpp and its header.
use robot_framework_ros.Prelude.{
  ℕ, ◌-◌, ◌≡◌, Bool, true, false, List, [], ◌∷◌, ◌++◌, length, leb, ◌==◌, ◌&&◌, arith,
  if◌then◌else◌,
}
use robot_framework_ros.Prelude.Run.{Result, ok, threw}
use robot_framework_ros.Prelude.Fallible.{◌>>=◌, or_threw}
use robot_framework_ros.Prelude.Text.{Text, text}
use robot_framework_ros.Platform.{Doubles, CoreLib}
use robot_framework_ros.Messages.{ArmCommandMsg}
use robot_framework_ros.SystemMonitor.Window.{
  Color, red_color, green_color, blue_color, white_color, BaseWindow, base_update,
}
use robot_framework_ros.SystemMonitor.NodeInfo.Row.{pad, spaces}

-- `drawn` is what was printed last: the lines, each with its color.
pub record HeaderWindow (D : Type 0) : Type 0 where
  pub base : BaseWindow D
  pub latest_arm_command : ArmCommandMsg
  pub drawn : List (Color × Text)

module _ ⦃core : CoreLib⦄ where
  -- The switch of `updateWindow`.
  unfoldable pub armed_state_color : ℕ → Color
  armed_state_color state =
      if state == core.armed_state_armed
      then blue_color
      else if state == core.armed_state_disarmed_cannotarm
      then red_color
      else if state == core.armed_state_disarmed
      then green_color
      else if state == core.armed_state_arming
      then green_color
      else red_color

  abbrev pub armed_text : ArmCommandMsg → Text
  armed_text msg = text "Armed State: " ++ core.pretty_armed_state msg.armed_state

module _ {D : Type 0} ⦃fl : Doubles D⦄ ⦃core : CoreLib⦄ where
  abbrev pub time_text : D → Text
  time_text now = text "Time: " ++ fl.to_text now

  -- `updateWindow`; `str.insert(str.end(), 40 - str.size(), ' ')` throws where the difference of the
  -- two `size_t` wraps around.
  unfoldable pub update_header_window : HeaderWindow D → Result (Bool × HeaderWindow D)
  unfolding pad armed_state_color
  update_header_window w =
      if w.base.has_win
      then (do
        time ← or_threw (pad 40 (time_text w.base.current_time_sec))
        state ← or_threw (pad 40 (armed_text w.latest_arm_command))
        ok (
          true,
          record w {
            drawn =
                (white_color, time)
                ∷ (armed_state_color w.latest_arm_command.armed_state, state)
                ∷ [];
          },
        ))
      else ok (false, w)

  unfoldable pub update_header : D → HeaderWindow D → Result (Bool × HeaderWindow D)
  unfolding update_header_window base_update
  update_header now w = update_header_window (record w { base = base_update now w.base })

  -- Whether the two lines have room.
  abbrev pub header_fits : D → HeaderWindow D → Bool
  header_fits now w =
      leb (length (time_text now)) 40 && leb (length (armed_text w.latest_arm_command)) 40

  -- The window that an update leaves.
  abbrev pub shown_header : D → HeaderWindow D → HeaderWindow D
  shown_header now w = record w {
    base = base_update now w.base;
    drawn =
        (white_color, time_text now ++ spaces (40 - length (time_text now)))
        ∷ (
          armed_state_color w.latest_arm_command.armed_state,
          armed_text w.latest_arm_command ++ spaces (40 - length (armed_text w.latest_arm_command)),
        )
        ∷ [];
  }

  -- An update of a window that is set prints the time it is given and the armed state of the last
  -- command, each filled up to 40 characters, if neither is longer than that, and throws if one is.
  pub update_header_lem :
      (now : D) (w : HeaderWindow D)
      → w.base.has_win ≡ true
      → update_header now w ≡ (if header_fits now w then ok (true, shown_header now w) else threw)
  unfolding update_header update_header_window pad base_update
  update_header_lem now w set = ground arith
