-- ===== src/SystemMonitor/Node/Screen.antt =====
-- How the windows are made: the constructor of `BaseWindow` (include/BaseWindow.hpp), those of the six
-- windows (include/Windows/), and `SystemMonitorNode::initWindows`. `unset` is what stands in
-- `m_currentTimeSec`, which has no initializer, and `latest` an arm command message as the core library
-- makes it; the screen has a height and a width. The drawing is left out, but for the dashed line of
-- three windows, a text of the window's width less 2, which throws if that is negative.
use robot_framework_ros.Prelude.{
  ℕ, ◌≡◌, Bool, true, false, [], ltb, ◌&&◌, ◌||◌, arith, if◌then◌else◌,
}
use robot_framework_ros.Prelude.Int.{pos, negsuc}
use robot_framework_ros.Prelude.Run.{Result, ok, threw}
use robot_framework_ros.Prelude.Text.{Text, text}
use robot_framework_ros.Prelude.Fallible.{◌>>=◌}
use robot_framework_ros.Platform.{Doubles, Curses}
use robot_framework_ros.Messages.{ArmCommandMsg}
use robot_framework_ros.SystemMonitor.Window.{
  no_color, BaseWindow, ScreenCoordinatePerc, convert_coordinate, set_focus,
}
use robot_framework_ros.SystemMonitor.NodeInfo.{NodeInfoWindow}
use robot_framework_ros.SystemMonitor.Message.{MessageWindow}
use robot_framework_ros.SystemMonitor.Diagnostics.{DiagnosticWindow}
use robot_framework_ros.SystemMonitor.Header.{HeaderWindow}
use robot_framework_ros.SystemMonitor.Menu.{MenuWindow, node}
use robot_framework_ros.SystemMonitor.Node.{MonitorNode}

-- The start and the size of the windows, in percent.
module _ {D : Type 0} ⦃fl : Doubles D⦄ where
  abbrev pub percent : ℕ → ℕ → D → ℕ → ScreenCoordinatePerc D
  percent x y width height = record {
    start_x_perc = fl.lit x 0;
    start_y_perc = fl.lit y 0;
    width_perc = width;
    height_perc = fl.lit height 0;
  }

  abbrev pub header_perc : ScreenCoordinatePerc D
  header_perc = percent 0 0 (fl.lit 100 0) 15

  abbrev pub node_info_perc : ScreenCoordinatePerc D
  node_info_perc = percent 0 15 (fl.lit 66 0) 55

  abbrev pub status_perc : ScreenCoordinatePerc D
  status_perc = percent 0 75 (fl.lit 30 0) 25

  abbrev pub diagnostic_perc : ScreenCoordinatePerc D
  diagnostic_perc = percent 66 15 (fl.lit 345 1) 55

  abbrev pub message_perc : ScreenCoordinatePerc D
  message_perc = percent 0 68 (fl.lit 100 0) 7

  abbrev pub menu_perc : ScreenCoordinatePerc D
  menu_perc = percent 30 75 (fl.lit 25 0) 25

module _ {D : Type 0} where
  unfoldable pub base_window : D → Text → ScreenCoordinatePerc D → ℕ → ℕ → BaseWindow D
  base_window unset name perc height width = record {
    name = name;
    has_win = false;
    tab_order = negsuc 0;
    coord_perc = perc;
    coord_pixel = record { start_x_pix = 0; start_y_pix = 0; width_pix = 0; height_pix = 0 };
    main_window_height = height;
    main_window_width = width;
    focused = false;
    current_time_sec = unset;
    record_selected = pos 0;
    record_count = 0;
  }

module _ {D : Type 0} ⦃fl : Doubles D⦄ ⦃curses : Curses⦄ where
  -- The body of the constructors; `dashed` is whether the window has a dashed line.
  unfoldable pub open_window : Bool → ℕ → ℕ → BaseWindow D → Result (BaseWindow D)
  open_window dashed height width w =
      let pix = convert_coordinate w.coord_perc width height in
      if dashed && ltb pix.width_pix 2
      then threw
      else ok (record w {
        has_win = curses.newwin pix.height_pix pix.width_pix pix.start_y_pix pix.start_x_pix;
        coord_pixel = pix;
      })

module _ {D : Type 0} ⦃fl : Doubles D⦄ ⦃curses : Curses⦄ (height width : ℕ) where
  -- Whether curses gives a window of that place.
  abbrev pub opens : ScreenCoordinatePerc D → Bool
  opens perc =
      let pix = convert_coordinate perc width height in
      curses.newwin pix.height_pix pix.width_pix pix.start_y_pix pix.start_x_pix

module _ {D : Type 0} ⦃fl : Doubles D⦄ (height width : ℕ) where
  abbrev pub is_narrow : ScreenCoordinatePerc D → Bool
  is_narrow perc = ltb (convert_coordinate perc width height).width_pix 2

module _ {D : Type 0} ⦃fl : Doubles D⦄ ⦃curses : Curses⦄ (unset : D) (height width : ℕ) where
  unfoldable pub header_window : ArmCommandMsg → Result (HeaderWindow D)
  unfolding base_window open_window
  header_window latest = do
    base ←
        open_window false height width
          (base_window unset (text "header_window") header_perc height width)
    ok (record { base = base; latest_arm_command = latest; drawn = [] })

  unfoldable pub node_info_window : Result (NodeInfoWindow D)
  unfolding base_window open_window
  node_info_window = do
    base ←
        open_window true height width
          (base_window unset (text "node_info_window") node_info_perc height width)
    ok (record {
      base = base;
      previous_key = negsuc 0;
      selected_node = text "";
      nodes = [];
      drawn = [];
      requests = [];
    })

  unfoldable pub status_window : Result (BaseWindow D)
  unfolding base_window open_window
  status_window =
      open_window false height width
        (base_window unset (text "status_window") status_perc height width)

  unfoldable pub diagnostic_window : Result (DiagnosticWindow D)
  unfolding base_window open_window
  diagnostic_window = do
    base ←
        open_window true height width
          (base_window unset (text "diagnostic_window") diagnostic_perc height width)
    ok (record {
      base = base;
      node_diagnostic_monitors = [];
      node_to_monitor = text "";
      drawn = [];
    })

  unfoldable pub message_window : Result (MessageWindow D)
  unfolding base_window open_window
  message_window = do
    base ←
        open_window false height width
          (base_window unset (text "message_window") message_perc height width)
    ok (record {
      base = base;
      timer_showing_message_in_window_sec = fl.lit 0 0;
      message_text = [];
      message_text_color = no_color;
    })

  unfoldable pub menu_window : Result (MenuWindow D)
  unfolding base_window open_window
  menu_window = do
    base ←
        open_window true height width
          (base_window unset (text "menu_window") menu_perc height width)
    ok (record { base = base; instruction_mode = node; drawn = [] })

  -- `initWindows`, of a new node: the windows in the order in which they are made.
  unfoldable pub init_windows : ArmCommandMsg → Result (MonitorNode D)
  unfolding header_window node_info_window status_window diagnostic_window message_window
      menu_window set_focus
  init_windows latest = do
    header ← header_window latest
    node_info ← node_info_window
    status ← status_window
    diagnostic ← diagnostic_window
    message ← message_window
    menu ← menu_window
    ok (record {
      diagnostic = diagnostic;
      header = header;
      menu = menu;
      message = message;
      node_info = record node_info { base = set_focus true node_info.base };
      status = status;
      selected_node = text "";
      auto_subs = [];
      shut_down = false;
    })

  -- A window that is open, at its place.
  abbrev pub opened : Text → ScreenCoordinatePerc D → Bool → BaseWindow D
  opened name perc focused =
      let pix = convert_coordinate perc width height in
      record {
        name = name;
        has_win = opens height width perc;
        tab_order = negsuc 0;
        coord_perc = perc;
        coord_pixel = pix;
        main_window_height = height;
        main_window_width = width;
        focused = focused;
        current_time_sec = unset;
        record_selected = pos 0;
        record_count = 0;
      }

  -- The monitor that `initWindows` leaves.
  abbrev pub shown_windows : ArmCommandMsg → MonitorNode D
  shown_windows latest = record {
    diagnostic = record {
      base = opened (text "diagnostic_window") diagnostic_perc false;
      node_diagnostic_monitors = [];
      node_to_monitor = [];
      drawn = [];
    };
    header = record {
      base = opened (text "header_window") header_perc false;
      latest_arm_command = latest;
      drawn = [];
    };
    menu = record {
      base = opened (text "menu_window") menu_perc false;
      instruction_mode = node;
      drawn = [];
    };
    message = record {
      base = opened (text "message_window") message_perc false;
      timer_showing_message_in_window_sec = fl.lit 0 0;
      message_text = [];
      message_text_color = no_color;
    };
    node_info = record {
      base = opened (text "node_info_window") node_info_perc true;
      previous_key = negsuc 0;
      selected_node = [];
      nodes = [];
      drawn = [];
      requests = [];
    };
    status = opened (text "status_window") status_perc false;
    selected_node = [];
    auto_subs = [];
    shut_down = false;
  }

  -- `initWindows` throws if the window of the nodes, of the diagnostics or of the menu would be less
  -- than two columns wide. Otherwise it makes the six windows, each at its share of the screen; the
  -- window of the nodes has the focus, and lists no node.
  pub init_windows_lem :
      (latest : ArmCommandMsg)
      → init_windows latest ≡ (
          if is_narrow {D = D} height width node_info_perc
            || is_narrow {D = D} height width diagnostic_perc
            || is_narrow {D = D} height width menu_perc
          then threw
          else ok (shown_windows latest))
  unfolding init_windows
  init_windows_lem latest = ground arith
