-- ===== src/SystemMonitor/Window.antt =====
-- Tools/Applications/SystemMonitor: include/Definitions.hpp, and the base class of the windows
-- (include/BaseWindow.hpp, src/BaseWindow.cpp, src/CommonWindowUtility.cpp).
pub mod Selection
pub mod Describe
use robot_framework_ros.Prelude.{ℕ, ◌-◌, Bool, true, false, List, [], if◌then◌else◌}
use robot_framework_ros.Prelude.Int.{ℤ, pos, ◌+ℤ◌, ◌-ℤ◌, ltb_ℤ, leb_ℤ, to_i16}
use robot_framework_ros.Prelude.Text.{Text, text, text_eq}
use robot_framework_ros.Platform.{Doubles, CoreLib, Curses}

pub data Color : Type 0 where
  unknown no_color red_color yellow_color green_color blue_color white_color purple_color : Color

pub data WindowCommandType : Type 0 where
  no_command view_diagnostics_node view_diagnostics_system : WindowCommandType

-- `WindowCommand`.
pub record WindowCommand : Type 0 where
  pub type : WindowCommandType
  pub option : Text

pub record MessageText : Type 0 where
  pub text : Text
  pub level : ℕ

pub record KeyEventContainer : Type 0 where
  pub command : WindowCommand
  pub message : MessageText

-- The default constructors.
module _ ⦃core : CoreLib⦄ where
  abbrev pub no_message : MessageText
  no_message = record { text = []; level = core.level_debug }

  abbrev pub no_event : KeyEventContainer
  no_event = record { command = record { type = no_command; option = [] }; message = no_message }

pub record ScreenCoordinatePerc (D : Type 0) : Type 0 where
  pub start_x_perc : D
  pub start_y_perc : D
  pub width_perc : D
  pub height_perc : D

pub record ScreenCoordinatePixel : Type 0 where
  pub start_x_pix : ℕ
  pub start_y_pix : ℕ
  pub width_pix : ℕ
  pub height_pix : ℕ

module _ {D : Type 0} ⦃fl : Doubles D⦄ where
  -- `(double)pix * (.01 * perc)`, as a `uint16_t`; a pixel count is an exact double.
  abbrev share : ℕ → D → ℕ
  share pix perc = fl.to_u16 (fl.mul (fl.lit pix 0) (fl.mul (fl.lit 1 2) perc))

  unfoldable pub convert_coordinate : ScreenCoordinatePerc D → ℕ → ℕ → ScreenCoordinatePixel
  convert_coordinate perc width_pix height_pix = record {
    start_x_pix = share width_pix perc.start_x_perc;
    start_y_pix = share height_pix perc.start_y_perc;
    width_pix = share width_pix perc.width_perc;
    height_pix = share height_pix perc.height_perc;
  }

-- `COMMTIMEOUT_THRESHOLD`.
module _ {D : Type 0} ⦃fl : Doubles D⦄ where
  abbrev pub commtimeout_threshold : D
  commtimeout_threshold = fl.lit 5 0

-- `m_win` is here whether it is set; `m_recordSelected` is an `int16_t`.
pub record BaseWindow (D : Type 0) : Type 0 where
  pub name : Text
  pub has_win : Bool
  pub tab_order : ℤ
  pub coord_perc : ScreenCoordinatePerc D
  pub coord_pixel : ScreenCoordinatePixel
  pub main_window_height : ℕ
  pub main_window_width : ℕ
  pub focused : Bool
  pub current_time_sec : D
  pub record_selected : ℤ
  pub record_count : ℕ

module _ {D : Type 0} ⦃curses : Curses⦄ where
  -- `getmaxx` of the window that `newwin` gave.
  abbrev pub columns : BaseWindow D → ℕ
  columns w =
      let pix = w.coord_pixel in
      curses.getmaxx pix.height_pix pix.width_pix pix.start_y_pix pix.start_x_pix

module _ {D : Type 0} where
  -- What does not change after the constructor: the name, the place, and whether there is a window.
  abbrev pub frame : BaseWindow D → Text × ScreenCoordinatePixel × Bool
  frame w = (w.name, w.coord_pixel, w.has_win)

module _ {D : Type 0} where
  unfoldable pub is_initialized : BaseWindow D → Bool
  is_initialized w = if text_eq w.name (text "") then false else w.has_win

  unfoldable pub decrement_selected_record : BaseWindow D → BaseWindow D
  decrement_selected_record w =
      let current = to_i16 (w.record_selected -ℤ pos 1) in
      record w { record_selected = if ltb_ℤ current (pos 0) then pos 0 else current }

  unfoldable pub increment_selected_record : BaseWindow D → BaseWindow D
  increment_selected_record w =
      let current = to_i16 (w.record_selected +ℤ pos 1) in
      let last = pos w.record_count -ℤ pos 1 in
      record w { record_selected = if leb_ℤ last current then to_i16 last else current }

  unfoldable pub update_record_count : ℕ → BaseWindow D → BaseWindow D
  update_record_count count w = record w { record_count = count }

  -- `BaseWindow::update`, which always answers true.
  unfoldable pub base_update : D → BaseWindow D → BaseWindow D
  base_update now w = record w { current_time_sec = now }

  unfoldable pub set_focus : Bool → BaseWindow D → BaseWindow D
  set_focus focus w = record w { focused = focus }
