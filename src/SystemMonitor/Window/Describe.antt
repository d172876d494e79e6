-- ===== src/SystemMonitor/Window/Describe.antt =====
-- What a window writes about itself: `BaseWindow::pretty` (src/BaseWindow.cpp), and `pretty` of the six
-- windows, with the title that each puts in front.
use robot_framework_ros.Prelude.{◌++◌, length, ltb, if◌then◌else◌}
use robot_framework_ros.Prelude.Run.{Result, ok, fault}
use robot_framework_ros.Prelude.Fallible.{◌>>=◌}
use robot_framework_ros.Prelude.Text.{Text, text}
use robot_framework_ros.Platform.{Doubles}
use robot_framework_ros.SystemMonitor.Window.{BaseWindow, is_initialized}
use robot_framework_ros.SystemMonitor.NodeInfo.Row.{u16_text}

module _ {D : Type 0} ⦃fl : Doubles D⦄ where
  -- The name and the percentages, as `sprintf` writes them into an array of 128 characters, one of
  -- which is the end of the text.
  unfoldable pub base_pretty : BaseWindow D → Result Text
  unfolding is_initialized u16_text
  base_pretty w =
      let s =
        w.name
        ++ text " (X:"
        ++ u16_text (fl.to_u16 w.coord_perc.start_x_perc)
        ++ text "%Y:"
        ++ u16_text (fl.to_u16 w.coord_perc.start_y_perc)
        ++ text "%W:"
        ++ u16_text (fl.to_u16 w.coord_perc.width_perc)
        ++ text "%H:"
        ++ u16_text (fl.to_u16 w.coord_perc.height_perc)
        ++ text "%)" in
      if is_initialized w
      then (if ltb (length s) 128 then ok s else fault)
      else ok (w.name ++ text " Is Uninitialized.")

  -- `pretty` of a window with that title.
  unfoldable pub window_pretty : Text → BaseWindow D → Result Text
  unfolding base_pretty
  window_pretty title w = base_pretty w >>= λ s. ok (text "---" ++ title ++ text "---\n" ++ s)
