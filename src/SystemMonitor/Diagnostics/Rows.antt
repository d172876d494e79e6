-- ===== src/SystemMonitor/Diagnostics/Rows.antt =====
-- The row that a diagnostic gets.
use robot_framework_ros.Prelude.{
  ℕ, ◌-◌, ◌<◌, length, ◌≤◌, ◌≡◌, ap, ◌∙◌, Bool, true, false, Option, none, some, ◌==◌, ◌||◌, arith,
  if◌then◌else◌,
}
use robot_framework_ros.Prelude.Text.{Text, text_eq_refl}
use robot_framework_ros.Prelude.Dict.{find, map_values, find-insert, find-map_values}
use robot_framework_ros.Prelude.Run.{ok}
use robot_framework_ros.Platform.{Doubles, CoreLib, Curses}
use robot_framework_ros.Messages.{Diagnostic}
use robot_framework_ros.SystemMonitor.Window.{no_color, red_color, base_update, columns}
use robot_framework_ros.SystemMonitor.Diagnostics.{
  NodeDiagnosticMonitor, Monitors, DiagnosticRow, DiagnosticWindow, row_text, find_type,
  insert_type, find_type-insert_type, monitors_of, new_diagnostic_msg, age, age_all,
  find_type-age_all, diagnostic_color, update_diagnostic_window, update_diagnostics,
}
use robot_framework_ros.SystemMonitor.Diagnostics.Reading.{level_color, reading, row_text-reading}
use robot_framework_ros.SystemMonitor.Diagnostics.Plain.{
  row_at, clipped, clipped_bound, plain_row, plain_rows, draw_types-plain, row_at-plain_rows,
}

module _ {D : Type 0} ⦃fl : Doubles D⦄ ⦃core : CoreLib⦄ where
  -- The entry that a message leaves.
  abbrev entry : Diagnostic → DiagnosticWindow D → NodeDiagnosticMonitor D
  entry msg w = record {
    node_diagnostic = msg;
    last_update_sec = w.base.current_time_sec;
    last_update_delta_sec = elim (find_type msg.diagnostic_type (monitors_of msg.node_name w)) [
      | none ↦ fl.lit 0 0
      | some v ↦ v.last_update_delta_sec
    ];
  }

  abbrev entries : Diagnostic → DiagnosticWindow D → Monitors D
  entries msg w = insert_type msg.diagnostic_type (entry msg w) (monitors_of msg.node_name w)

  found_entries :
      (msg : Diagnostic) (now : D) (w : DiagnosticWindow D)
      → find msg.node_name
          (map_values (age_all now) (new_diagnostic_msg msg w).node_diagnostic_monitors)
        ≡ some (age_all now (entries msg w))
  unfolding new_diagnostic_msg
  found_entries msg now w =
      let e : find msg.node_name (new_diagnostic_msg msg w).node_diagnostic_monitors
          ≡ some (entries msg w) =
        find-insert msg.node_name msg.node_name (entries msg w) w.node_diagnostic_monitors
        ∙ ap
            (λ (b : Bool).
              if b then some (entries msg w) else find msg.node_name w.node_diagnostic_monitors)
            (text_eq_refl msg.node_name) in
      find-map_values (age_all now) msg.node_name
        (new_diagnostic_msg msg w).node_diagnostic_monitors
      ∙ ap (λ (o : Option (Monitors D)). elim o [ none ↦ none | some v ↦ some (age_all now v) ]) e

  found_type :
      (t : ℕ) (now : D) (v : NodeDiagnosticMonitor D) (m : Monitors D)
      → find_type t (age_all now (insert_type t v m)) ≡ some (age now v)
  found_type t now v m =
      ground (arith, find_type-age_all now t (insert_type t v m), find_type-insert_type t t v m)

  aged_color :
      (now : D) (v : NodeDiagnosticMonitor D)
      → core.level_unknown < 256
      → diagnostic_color (age now v).node_diagnostic.level ≡ (
          if fl.lt (fl.lit 5 0) (fl.sub now v.last_update_sec)
          then red_color
          else level_color v.node_diagnostic.level)
  unfolding age diagnostic_color
  aged_color now v small = ground arith

  aged_text :
      (now : D) (t : ℕ) (v : NodeDiagnosticMonitor D)
      → row_text D t (age now v).node_diagnostic ≡ reading D t v.node_diagnostic
  unfolding age
  aged_text now t v = ground (arith, row_text-reading D t (age now v).node_diagnostic)

  abbrev aged_row : D → ℕ → ℕ → NodeDiagnosticMonitor D → DiagnosticRow
  aged_row now width t v = record {
    color = diagnostic_color (age now v).node_diagnostic.level;
    text = clipped width (row_text D t (age now v).node_diagnostic);
  }

  aged_row_lem :
      (now : D) (width t : ℕ) (v : NodeDiagnosticMonitor D)
      → core.level_unknown < 256
      → aged_row now width t v ≡ record {
        color =
            if fl.lt (fl.lit 5 0) (fl.sub now v.last_update_sec)
            then red_color
            else level_color v.node_diagnostic.level;
        text = clipped width (reading D t v.node_diagnostic);
      }
  aged_row_lem now width t v small = ground (arith, aged_color now v small, aged_text now t v)

module _ {D : Type 0} ⦃fl : Doubles D⦄ ⦃core : CoreLib⦄ ⦃curses : Curses⦄ where
  -- The update draws the entries of the monitored node.
  update_draws_types :
      (now : D) (w : DiagnosticWindow D) (m : Monitors D)
      → w.base.has_win ≡ true
      → 3 ≤ columns w.base
      → find w.node_to_monitor (map_values (age_all now) w.node_diagnostic_monitors) ≡ some m
      → update_diagnostics now w
        ≡ ok (
          true,
          record w {
            base = base_update now w.base;
            node_diagnostic_monitors = map_values (age_all now) w.node_diagnostic_monitors;
            drawn =
                plain_rows
                  (columns w.base)
                  core.type_unknown
                  (core.type_end_of_list - core.type_unknown)
                  m;
          },
        )
  unfolding update_diagnostics update_diagnostic_window base_update
  update_draws_types now w m set wide e = ground (
    arith,
    set,
    e,
    draw_types-plain (columns w.base) core.type_unknown (core.type_end_of_list - core.type_unknown)
        m wide,
  )

  -- After a diagnostic message of the monitored node, an update at a later time `now` of a window that
  -- is set and has three columns or more returns, and the message's type has a row, if it is one of
  -- the types that are shown. If the message is more than five seconds old then, the row is red. If
  -- not, it is blue for the levels NOERROR, DEBUG, INFO and NOTICE, yellow for WARN, and red for every
  -- other. Its text is the name of the type, a colon, the name of the message, the stamp in seconds in
  -- parentheses, a dash and the description: whole if it is shorter than the columns, and else the
  -- columns less three of it. UNKNOWN is a byte.
  pub diagnostic_row :
      (msg : Diagnostic) (now : D) (w : DiagnosticWindow D)
      → w.base.has_win ≡ true
      → 3 ≤ columns w.base
      → w.node_to_monitor ≡ msg.node_name
      → core.level_unknown < 256
      → core.type_unknown ≤ msg.diagnostic_type
      → msg.diagnostic_type < core.type_end_of_list
      → (msg.diagnostic_type == core.type_unknown || msg.diagnostic_type == core.type_unknown_type)
        ≡ false
      → let shown = clipped (columns w.base) (reading D msg.diagnostic_type msg) in
        (w' : DiagnosticWindow D) × (update_diagnostics now (new_diagnostic_msg msg w)
          ≡ ok (true, w'))
        × (row_at msg.diagnostic_type w'.drawn
            ≡ some (record {
              color =
                  if fl.lt (fl.lit 5 0) (fl.sub now w.base.current_time_sec)
                  then red_color
                  else level_color msg.level;
              text = shown;
            }))
        × (length shown < columns w.base)
  unfolding new_diagnostic_msg
  diagnostic_row msg now w set wide monitored small low high kept =
      let t = msg.diagnostic_type in
      let v = entry msg w in
      let m = age_all now (entries msg w) in
      let width = columns w.base in
      let e = update_draws_types now (new_diagnostic_msg msg w) m set wide (
        ap
          (λ (k : Text).
            find k (map_values (age_all now) (new_diagnostic_msg msg w).node_diagnostic_monitors))
          monitored
        ∙ found_entries msg now w) in
      let row : plain_row width t m ≡ aged_row now width t v =
        ap
          (λ (o : Option (NodeDiagnosticMonitor D)). elim o [
            | none ↦ record { color = no_color; text = core.pretty_diagnostic_type t }
            | some x ↦ record {
              color = diagnostic_color x.node_diagnostic.level;
              text = clipped width (row_text D t x.node_diagnostic);
            }
          ])
          (found_type t now v (monitors_of msg.node_name w)) in
      (
        _,
        e,
        row_at-plain_rows width t core.type_unknown (core.type_end_of_list - core.type_unknown) m
              low (omega (arith, low, high)) kept
            ∙ ap some (row ∙ aged_row_lem now width t v small),
        clipped_bound width (reading D t msg) wide,
      )
