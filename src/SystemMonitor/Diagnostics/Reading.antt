-- ===== src/SystemMonitor/Diagnostics/Reading.antt =====
-- How a diagnostic is to be read on the screen, described apart from the code: the color of its level
-- and the text of its row.
use robot_framework_ros.Prelude.{ℕ, ◌+◌, ◌≡◌, refl, List, [], ◌∷◌, ◌++◌, ◌==◌, if◌then◌else◌}
use robot_framework_ros.Prelude.Int.{ℤ, pos, negsuc}
use robot_framework_ros.Prelude.Text.{Text, text}
use robot_framework_ros.Platform.{Doubles, CoreLib}
use robot_framework_ros.Messages.{Diagnostic}
use robot_framework_ros.SystemMonitor.Window.{Color, red_color, yellow_color, blue_color}
use robot_framework_ros.SystemMonitor.Diagnostics.{diagnostic_color, row_text, stamp_seconds}

-- The color that a table gives to a level, red if it has none.
abbrev color_in : List (ℕ × Color) → ℕ → Color
color_in [] level = red_color
color_in ((l, color) ∷ rest) level = if level == l then color else color_in rest level

module _ ⦃core : CoreLib⦄ where
  abbrev pub level_color : ℕ → Color
  level_color = color_in (
      (core.level_unknown, red_color)
      ∷ (core.level_noerror, blue_color)
      ∷ (core.level_debug, blue_color)
      ∷ (core.level_info, blue_color)
      ∷ (core.level_notice, blue_color)
      ∷ (core.level_warn, yellow_color)
      ∷ [])

  pub diagnostic_color-level : (level : ℕ) → diagnostic_color level ≡ level_color level
  unfolding diagnostic_color
  diagnostic_color-level level = refl

module _ {D : Type 0} ⦃fl : Doubles D⦄ where
  abbrev whole_seconds : ℤ → D
  whole_seconds (pos n) = fl.lit n 0
  whole_seconds (negsuc n) = fl.neg (fl.lit (n + 1) 0)

module _ (D : Type 0) ⦃fl : Doubles D⦄ ⦃core : CoreLib⦄ where
  -- "TYPE:MESSAGE(SECONDS) - DESCRIPTION".
  abbrev pub reading : ℕ → Diagnostic → Text
  reading t msg =
      core.pretty_diagnostic_type t
      ++ text ":"
      ++ core.pretty_diagnostic_message msg.diagnostic_message
      ++ text "("
      ++ fl.to_text (
          fl.add (whole_seconds msg.timestamp.sec)
            (fl.mul (fl.lit msg.timestamp.nanosec 0) (fl.lit 1 9)))
      ++ text ") - "
      ++ msg.description

  pub row_text-reading : (t : ℕ) (msg : Diagnostic) → row_text D t msg ≡ reading t msg
  unfolding row_text stamp_seconds
  row_text-reading t msg = refl
