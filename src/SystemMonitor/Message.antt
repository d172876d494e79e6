-- ===== src/SystemMonitor/Message.antt =====
-- The window that shows one message for a while:
-- Tools/Applications/SystemMonitor/src/Windows/MessageWindow.cpp and its header.
use robot_framework_ros.Prelude.{
  ℕ, ◌≡◌, Bool, true, false, List, [], ◌∷◌, ◌==◌, arith, if◌then◌else◌,
}
use robot_framework_ros.Prelude.Text.{Text, text, text_eq}
use robot_framework_ros.Platform.{Doubles, CoreLib}
use robot_framework_ros.SystemMonitor.Window.{
  Color, no_color, red_color, yellow_color, green_color, MessageText, BaseWindow, base_update,
}

pub record MessageWindow (D : Type 0) : Type 0 where
  pub base : BaseWindow D
  pub timer_showing_message_in_window_sec : D
  pub message_text : Text
  pub message_text_color : Color

module _ ⦃core : CoreLib⦄ where
  -- The switch of `setMessageText`.
  unfoldable pub level_color : ℕ → Color
  level_color level =
      if level == core.level_debug
      then no_color
      else if level == core.level_info
      then no_color
      else if level == core.level_notice
      then green_color
      else if level == core.level_warn
      then yellow_color
      else red_color

module _ {D : Type 0} ⦃fl : Doubles D⦄ ⦃core : CoreLib⦄ where
  -- Both functions of that name.
  unfoldable pub set_message_text : Text → ℕ → MessageWindow D → MessageWindow D
  unfolding level_color
  set_message_text s level w = if text_eq s (text "") then w else record w {
    message_text = s;
    message_text_color = level_color level;
    timer_showing_message_in_window_sec = fl.lit 0 0;
  }

  unfoldable pub new_message_text_list : List MessageText → MessageWindow D → Bool × MessageWindow D
  unfolding set_message_text
  new_message_text_list [] w = (true, w)
  new_message_text_list (m ∷ []) w = (true, set_message_text m.text m.level w)
  new_message_text_list (m ∷ m' ∷ ms) w = (false, w)

module _ {D : Type 0} ⦃fl : Doubles D⦄ where
  -- `updateWindow`; what it prints is the text and the color that it leaves.
  unfoldable pub update_message_window : MessageWindow D → Bool × MessageWindow D
  update_message_window w =
      if w.base.has_win
      then (
        true,
        if fl.lt (fl.lit 10 0) w.timer_showing_message_in_window_sec
            then record w { message_text = text ""; message_text_color = no_color }
            else w,
      )
      else (false, w)

  unfoldable pub update_message : D → MessageWindow D → Bool × MessageWindow D
  unfolding update_message_window base_update
  update_message now w =
      let dt = fl.sub now w.base.current_time_sec in
      update_message_window (record w {
        base = base_update now w.base;
        timer_showing_message_in_window_sec =
            if fl.lt (fl.lit 0 0) dt
            then fl.add w.timer_showing_message_in_window_sec dt
            else w.timer_showing_message_in_window_sec;
      })

module _ {D : Type 0} ⦃fl : Doubles D⦄ ⦃core : CoreLib⦄ where
  -- One message with a text, in a window that is set, is shown at the next update that comes `dt`
  -- seconds later, with the color of its level, if the time shown is not above ten seconds, and is
  -- cleared then if it is. An update that comes no later than the message adds no time.
  pub message_shown :
      (m : MessageText) (now : D) (w : MessageWindow D)
      → w.base.has_win ≡ true
      → text_eq m.text (text "") ≡ false
      → let dt = fl.sub now w.base.current_time_sec in
        let shown = if fl.lt (fl.lit 0 0) dt then fl.add (fl.lit 0 0) dt else fl.lit 0 0 in
        let (taken, w1) = new_message_text_list (m ∷ []) w in
        let (updated, w2) = update_message now w1 in
        (taken ≡ true)
        × (updated ≡ true)
        × (w2.timer_showing_message_in_window_sec ≡ shown)
        × (w2.message_text ≡ (if fl.lt (fl.lit 10 0) shown then text "" else m.text))
        × (w2.message_text_color
            ≡ (if fl.lt (fl.lit 10 0) shown then no_color else level_color m.level))
  unfolding new_message_text_list update_message
  message_shown m now w set some_text = ground arith
