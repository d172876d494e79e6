-- ===== src/SystemMonitor/Dispatch/Screen.antt =====
-- `SystemMonitorNode::initScreen` and `initWindows`, over the map of windows. Of the calls of ncurses
-- in `initScreen` only `has_colors` has a result that is looked at. `unset`, `latest` and the screen's
-- height and width are as in Node/Screen.
use robot_framework_ros.Prelude.{ℕ, ◌≡◌, refl, Bool, true, false, [], arith, if◌then◌else◌}
use robot_framework_ros.Prelude.Run.{Result, ok}
use robot_framework_ros.Prelude.Fallible.{◌>>=◌}
use robot_framework_ros.Prelude.Text.{text_eq, text_ltb}
use robot_framework_ros.Prelude.Dict.{Dict, insert}
use robot_framework_ros.Platform.{Doubles, Curses}
use robot_framework_ros.Messages.{ArmCommandMsg}
use robot_framework_ros.SystemMonitor.Window.{set_focus}
use robot_framework_ros.SystemMonitor.Node.Screen
use robot_framework_ros.SystemMonitor.Node.Screen.{
  header_window, node_info_window, status_window, diagnostic_window, message_window, menu_window,
  base_window, open_window, is_narrow, node_info_perc, diagnostic_perc, menu_perc, shown_windows,
  init_windows_lem,
}
use robot_framework_ros.SystemMonitor.Dispatch.{
  Window, a_diagnostic, a_header, a_menu, a_message, a_node_info, a_status, Monitor, get_name,
}
use robot_framework_ros.SystemMonitor.Dispatch.Visit.{windows_of, IsNamed}

module _ {D : Type 0} where
  -- `m_windows[window->getName()] = window`.
  abbrev add : Window D → Dict (Window D) → Dict (Window D)
  add w ws = insert (get_name w) w ws

module _ {D : Type 0} ⦃fl : Doubles D⦄ ⦃curses : Curses⦄ (unset : D) (height width : ℕ) where
  unfoldable pub init_windows : ArmCommandMsg → Monitor D → Result (Monitor D)
  unfolding get_name set_focus
  init_windows latest m = do
    header ← header_window unset height width latest
    let ws1 = add (a_header header) m.windows
    node_info ← node_info_window unset height width
    let ws2 = add (a_node_info (record node_info { base = set_focus true node_info.base })) ws1
    status ← status_window unset height width
    let ws3 = add (a_status status) ws2
    diagnostic ← diagnostic_window unset height width
    let ws4 = add (a_diagnostic diagnostic) ws3
    message ← message_window unset height width
    let ws5 = add (a_message message) ws4
    menu ← menu_window unset height width
    ok (record m { windows = add (a_menu menu) ws5 })

  unfoldable pub init_screen : ArmCommandMsg → Monitor D → Result (Bool × Monitor D)
  unfolding init_windows
  init_screen latest m =
      if curses.has_colors then (do m' ← init_windows latest m; ok (true, m')) else ok (false, m)

  -- With no window before, the map holds the windows that `initWindows` makes.
  pub init_windows_agrees :
      (latest : ArmCommandMsg) (m : Monitor D)
      → m.windows ≡ []
      → init_windows latest m ≡ (
          Screen.init_windows unset height width latest >>= λ n.
          ok (record m { windows = windows_of n }))
  unfolding init_windows Screen.init_windows insert header_window node_info_window status_window
      diagnostic_window message_window menu_window get_name text_eq text_ltb base_window open_window
      set_focus
  init_windows_agrees latest m e = ground (arith, e)

  pub shown_windows-IsNamed :
      (latest : ArmCommandMsg) → IsNamed (shown_windows unset height width latest)
  shown_windows-IsNamed latest = record {
    diagnostic = refl;
    header = refl;
    menu = refl;
    message = refl;
    node_info = refl;
    status = refl;
  }
