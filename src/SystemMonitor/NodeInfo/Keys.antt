-- ===== src/SystemMonitor/NodeInfo/Keys.antt =====
-- `NodeInfoWindow::newKeyEvent`.
use robot_framework_ros.Prelude.{
  ℕ, zero, suc, ◌+◌, ◌-◌, Bool, Option, none, some, [], ◌∷◌, ◌++◌, ◌==◌, ◌&&◌, ◌||◌, not,
  if◌then◌else◌,
}
use robot_framework_ros.Prelude.Int.{ℤ, pos, eq_ℤ, leb_ℤ, pos_part}
use robot_framework_ros.Prelude.Text.{Text, text, text_eq}
use robot_framework_ros.Prelude.Dict.{find}
use robot_framework_ros.Platform.{CoreLib, Curses}
use robot_framework_ros.SystemMonitor.Window.{
  MessageText, KeyEventContainer, no_message, no_event, decrement_selected_record,
  increment_selected_record,
}
use robot_framework_ros.SystemMonitor.NodeInfo.{NodeInfoWindow}
use robot_framework_ros.SystemMonitor.NodeInfo.Row.{u16_text}

abbrev pub is_level_key : ℤ → Bool
is_level_key key = eq_ℤ key (pos b'l') || eq_ℤ key (pos b'L')

abbrev pub is_digit_key : ℤ → Bool
is_digit_key key = leb_ℤ (pos b'0') key && leb_ℤ key (pos b'9')

module _ ⦃keys : Curses⦄ where
  -- `supportedKeys`, as the constructor fills it.
  unfoldable pub is_supported : ℤ → Bool
  is_supported key =
      eq_ℤ key keys.key_up || eq_ℤ key keys.key_down || is_level_key key || is_digit_key key

module _ ⦃core : CoreLib⦄ where
  -- The loop that lists the levels, of `count` of them from `i`.
  unfoldable pub list_levels : ℕ → ℕ → Text
  unfolding u16_text
  list_levels i zero = []
  list_levels i (suc count) =
      (if i == core.level_unknown
        then []
        else u16_text i ++ text ":" ++ core.pretty_level i ++ text " ")
      ++ list_levels (i + 1) count

  unfoldable pub level_prompt : MessageText
  unfolding list_levels
  level_prompt = record {
    text =
        text "Enter new Log Level "
        ++ list_levels core.level_unknown (core.level_end_of_list - core.level_unknown);
    level = core.level_notice;
  }

module _ {D : Type 0} ⦃core : CoreLib⦄ where
  -- What a digit does behind the key `l`: the message, and the window with its request.
  -- `available` is the answer of `wait_for_service`; the request is sent whatever it is.
  unfoldable pub request_level : ℕ → Bool → NodeInfoWindow D → MessageText × NodeInfoWindow D
  request_level verbosity available w =
      if text_eq (core.pretty_level verbosity) (text "UNKNOWN")
      then (record { text = text "Requested Log Level Not Supported."; level = core.level_warn }, w)
      else (let service = w.selected_node ++ text "/change_logger_level" in
          let missing : MessageText = record {
            text = text "Service: " ++ service ++ text " Not available!";
            level = core.level_warn;
          } in
          let unlisted : MessageText = record {
            text = text "Can't lookup Node: " ++ w.selected_node;
            level = core.level_warn;
          } in
          (
            if not available
                then missing
                else elim (find w.selected_node w.nodes) [ none ↦ unlisted | some n ↦ no_message ],
            record w {
              requests =
                  w.requests ++ record { service = service; verbosity_level = verbosity } ∷ [];
            },
          ))

module _ {D : Type 0} ⦃core : CoreLib⦄ ⦃keys : Curses⦄ where
  -- What a supported key does in a window that has the focus: the message and the window, or `none`
  -- for the early return.
  unfoldable pub focused_key : ℤ → Bool → NodeInfoWindow D → Option (MessageText × NodeInfoWindow D)
  focused_key key available w =
      if eq_ℤ key keys.key_up
      then some (no_message, record w { base = decrement_selected_record w.base })
      else if eq_ℤ key keys.key_down
      then some (no_message, record w { base = increment_selected_record w.base })
      else if is_level_key key
      then some (level_prompt, w)
      else if is_digit_key key
      then (elim w.nodes [
        | [] ↦ none
        | n ∷ ns ↦
            (if is_level_key w.previous_key
              then some (request_level (pos_part key - b'0') available w)
              else some (no_message, w))
      ])
      else some (no_message, w)

  unfoldable pub new_key_event : ℤ → Bool → NodeInfoWindow D → KeyEventContainer × NodeInfoWindow D
  new_key_event key available w =
      if is_supported key
      then (elim (if w.base.focused then focused_key key available w else some (no_message, w)) [
        | none ↦ (record no_event { message = record no_message { level = core.level_error } }, w)
        | some (message, w') ↦
            (record no_event { message = message }, record w' { previous_key = key })
      ])
      else (no_event, w)
