-- ===== src/SystemMonitor/Diagnostics.antt =====
-- The window of a node's diagnostics:
-- Tools/Applications/SystemMonitor/src/Windows/DiagnosticWindow.cpp and its header. Of what is
-- drawn the rows are kept: the diagnostic type that each shows, its color and its text.
pub mod Rows
pub mod Plain
pub mod Reading
use robot_framework_ros.Prelude.{
  ℕ, zero, suc, ◌+◌, ◌-◌, ◌%◌, ◌≡◌, refl, ap, ◌∙◌, Bool, true, false, Option, none, some, List, [],
  ◌∷◌, ◌++◌, map, ltb, leb, length, take, ◌==◌, ◌||◌, arith, if◌then◌else◌, Option-cases, inl, inr,
}
use robot_framework_ros.Prelude.Text.{Text, text, text_eq, text_eq_refl}
use robot_framework_ros.Prelude.Dict.{Dict, find, insert, map_values, find-insert, find-map_values}
use robot_framework_ros.Prelude.Int.{ℤ, pos, negsuc}
use robot_framework_ros.Prelude.Run.{Result, ok, threw}
use robot_framework_ros.Prelude.Fallible.{◌>>=◌}
use robot_framework_ros.Platform.{Doubles, CoreLib, Curses}
use robot_framework_ros.Messages.{Diagnostic, Stamp}
use robot_framework_ros.SystemMonitor.Window.{
  Color, no_color, red_color, yellow_color, blue_color, BaseWindow, commtimeout_threshold,
  base_update, columns,
}

pub record NodeDiagnosticMonitor (D : Type 0) : Type 0 where
  pub node_diagnostic : Diagnostic
  pub last_update_sec : D
  pub last_update_delta_sec : D

-- `std::map<uint8_t, NodeDiagnosticMonitor>`.
abbrev pub Monitors : Type 0 → Type 0
Monitors D = List (ℕ × NodeDiagnosticMonitor D)

-- What is printed for one type of diagnostic.
pub record DiagnosticRow : Type 0 where
  pub color : Color
  pub text : Text

-- The window stays in the mode NODE, which nothing changes.
pub record DiagnosticWindow (D : Type 0) : Type 0 where
  pub base : BaseWindow D
  pub node_diagnostic_monitors : Dict (Monitors D)
  pub node_to_monitor : Text
  pub drawn : List (ℕ × DiagnosticRow)

module _ {D : Type 0} where
  unfoldable pub find_type : ℕ → Monitors D → Option (NodeDiagnosticMonitor D)
  find_type t [] = none
  find_type t ((j, v) ∷ m) = if j == t then some v else find_type t m

  unfoldable pub insert_type : ℕ → NodeDiagnosticMonitor D → Monitors D → Monitors D
  insert_type t v [] = (t, v) ∷ []
  insert_type t v ((j, w) ∷ m) =
      let rest = insert_type t v m in
      if j == t then (t, v) ∷ m else if ltb t j then (t, v) ∷ (j, w) ∷ m else (j, w) ∷ rest

  pub find_type-insert_type :
      (t u : ℕ) (v : NodeDiagnosticMonitor D) (m : Monitors D)
      → find_type u (insert_type t v m) ≡ (if t == u then some v else find_type u m)
  unfolding find_type insert_type
  find_type-insert_type t u v [] = refl
  find_type-insert_type t u v ((j, w) ∷ m) = ground (arith, find_type-insert_type t u v m)

  abbrev pub monitors_of : Text → DiagnosticWindow D → Monitors D
  monitors_of name w = elim (find name w.node_diagnostic_monitors) [ none ↦ [] | some m ↦ m ]

  -- `m_nodeToMonitor`.
  unfoldable pub set_node_to_monitor : Text → DiagnosticWindow D → DiagnosticWindow D
  set_node_to_monitor name w = record w { node_to_monitor = name }

module _ {D : Type 0} ⦃fl : Doubles D⦄ where
  -- `m[msg.node_name][msg.diagnostic_type]`, whose members are zero if it is new.
  unfoldable pub new_diagnostic_msg : Diagnostic → DiagnosticWindow D → DiagnosticWindow D
  new_diagnostic_msg msg w =
      let monitors = monitors_of msg.node_name w in
      let delta : D = elim (find_type msg.diagnostic_type monitors) [
        | none ↦ fl.lit 0 0
        | some v ↦ v.last_update_delta_sec
      ] in
      record w {
        node_diagnostic_monitors =
            insert msg.node_name
              (insert_type msg.diagnostic_type
                (record {
                  node_diagnostic = msg;
                  last_update_sec = w.base.current_time_sec;
                  last_update_delta_sec = delta;
                })
                monitors)
              w.node_diagnostic_monitors;
      }

module _ {D : Type 0} ⦃fl : Doubles D⦄ ⦃core : CoreLib⦄ where
  -- The loop of `update` over the diagnostics.
  unfoldable pub age : D → NodeDiagnosticMonitor D → NodeDiagnosticMonitor D
  age now v =
      let delta = fl.sub now v.last_update_sec in
      if fl.lt commtimeout_threshold delta
      then record v {
        last_update_delta_sec = delta;
        node_diagnostic = record v.node_diagnostic { level = core.level_unknown % 256 };
      }
      else record v { last_update_delta_sec = delta }

  unfoldable pub age_all : D → Monitors D → Monitors D
  unfolding age
  age_all now [] = []
  age_all now ((t, v) ∷ m) = (t, age now v) ∷ age_all now m

  pub find_type-age_all :
      (now : D) (t : ℕ) (m : Monitors D)
      → find_type t (age_all now m)
        ≡ elim (find_type t m) [ none ↦ none | some v ↦ some (age now v) ]
  unfolding find_type age_all
  find_type-age_all now t [] = refl
  find_type-age_all now t ((j, v) ∷ m) = ground (arith, find_type-age_all now t m)

module _ ⦃core : CoreLib⦄ where
  -- The switch of `updateWindow` from a level to the color of its row.
  unfoldable pub diagnostic_color : ℕ → Color
  diagnostic_color level =
      if level == core.level_unknown
      then red_color
      else if level == core.level_noerror
      then blue_color
      else if level == core.level_debug
      then blue_color
      else if level == core.level_info
      then blue_color
      else if level == core.level_notice
      then blue_color
      else if level == core.level_warn
      then yellow_color
      else red_color

module _ {D : Type 0} ⦃fl : Doubles D⦄ where
  -- `static_cast<double>` of an `int32_t`, and the stamp in seconds.
  abbrev of_int : ℤ → D
  of_int (pos n) = fl.lit n 0
  of_int (negsuc n) = fl.neg (fl.lit (n + 1) 0)

  unfoldable pub stamp_seconds : Stamp → D
  stamp_seconds s = fl.add (of_int s.sec) (fl.mul (fl.lit s.nanosec 0) (fl.lit 1 9))

-- `if (str.size() >= width) { str.erase(width - 3); }`: `erase` throws at a position that is negative,
-- and so a large `size_t`.
unfoldable pub clip : ℕ → Text → Result Text
clip width s =
    if leb width (length s) then (if ltb width 3 then threw else ok (take (width - 3) s)) else ok s

module _ (D : Type 0) ⦃fl : Doubles D⦄ ⦃core : CoreLib⦄ where
  unfoldable pub row_text : ℕ → Diagnostic → Text
  unfolding stamp_seconds
  row_text t msg =
      core.pretty_diagnostic_type t
      ++ text ":"
      ++ core.pretty_diagnostic_message msg.diagnostic_message
      ++ text "("
      ++ fl.to_text (stamp_seconds {D = D} msg.timestamp)
      ++ text ") - "
      ++ msg.description

module _ {D : Type 0} ⦃fl : Doubles D⦄ ⦃core : CoreLib⦄ where
  -- The body of the loop of `updateWindow`: the row of a type, in a window of that many columns.
  unfoldable pub type_row : ℕ → ℕ → Monitors D → Result DiagnosticRow
  unfolding clip row_text diagnostic_color find_type
  type_row width t m = elim (find_type t m) [
    | none ↦ ok (record { color = no_color; text = core.pretty_diagnostic_type t })
    | some v ↦ do
      s ← clip width (row_text D t v.node_diagnostic)
      ok (record { color = diagnostic_color v.node_diagnostic.level; text = s })
  ]

  -- The loop of `updateWindow` over the types, `count` of them from `t`.
  unfoldable pub draw_types : ℕ → ℕ → ℕ → Monitors D → Result (List (ℕ × DiagnosticRow))
  unfolding type_row
  draw_types width t zero m = ok []
  draw_types width t (suc count) m =
      let rest = draw_types width (t + 1) count m in
      let drawn = type_row width t m >>= λ row. rest >>= λ rows. ok ((t, row) ∷ rows) in
      if t == core.type_unknown || t == core.type_unknown_type then rest else drawn

module _ {D : Type 0} ⦃fl : Doubles D⦄ ⦃core : CoreLib⦄ ⦃curses : Curses⦄ where
  -- `updateWindow`; it draws nothing for a node that it has not heard of.
  unfoldable pub update_diagnostic_window : DiagnosticWindow D → Result (Bool × DiagnosticWindow D)
  unfolding draw_types
  update_diagnostic_window w =
      if w.base.has_win
      then (elim (find w.node_to_monitor w.node_diagnostic_monitors) [
        | none ↦ ok (true, w)
        | some m ↦ do
          rows ←
              draw_types (columns w.base) core.type_unknown
                (core.type_end_of_list - core.type_unknown) m
          ok (true, record w { drawn = rows })
      ])
      else ok (false, w)

  unfoldable pub update_diagnostics : D → DiagnosticWindow D → Result (Bool × DiagnosticWindow D)
  unfolding update_diagnostic_window age_all base_update
  update_diagnostics now w = update_diagnostic_window (record w {
    base = base_update now w.base;
    node_diagnostic_monitors = map_values (age_all now) w.node_diagnostic_monitors;
  })
