-- ===== src/SystemMonitor/NodeInfo/Events.antt =====
-- What each key does in `NodeInfoWindow::newKeyEvent`.
use robot_framework_ros.Prelude.{
  ℕ, ◌+◌, ◌-◌, ◌≤◌, ◌≡◌, refl, ◌⊎◌, Bool, true, false, none, [], arith, if◌then◌else◌,
}
use robot_framework_ros.Prelude.Int.{ℤ, pos, eq_ℤ, pos_part}
use robot_framework_ros.Prelude.Text.{Text, text}
use robot_framework_ros.Platform.{CoreLib, Curses}
use robot_framework_ros.SystemMonitor.Window.{no_message, no_event}
use robot_framework_ros.SystemMonitor.NodeInfo.{NodeInfoWindow}
use robot_framework_ros.SystemMonitor.NodeInfo.Keys.{
  is_level_key, is_digit_key, is_supported, focused_key, new_key_event,
}

module _ ⦃keys : Curses⦄ where
  -- A digit is supported, and is not the key `l`.
  digit_key :
      (digit : ℕ)
      → digit ≤ 9
      → (is_supported (pos (48 + digit)) ≡ true)
        × (is_level_key (pos (48 + digit)) ≡ false)
        × (is_digit_key (pos (48 + digit)) ≡ true)
        × (pos_part (pos (48 + digit)) - b'0' ≡ digit)
  unfolding is_supported
  digit_key digit small = ground arith

module _ {D : Type 0} ⦃core : CoreLib⦄ ⦃keys : Curses⦄ where
  event_of_none :
      (key : ℤ) (available : Bool) (w : NodeInfoWindow D)
      → is_supported key ≡ true
      → w.base.focused ≡ true
      → focused_key key available w ≡ none
      → new_key_event key available w
        ≡ (record no_event { message = record no_message { level = core.level_error } }, w)
  unfolding new_key_event
  event_of_none key available w supported focus e = ground arith

  focused_digit_empty :
      (digit : ℕ) (available : Bool) (w : NodeInfoWindow D)
      → digit ≤ 9
      → eq_ℤ (pos (48 + digit)) keys.key_up ≡ false
      → eq_ℤ (pos (48 + digit)) keys.key_down ≡ false
      → w.nodes ≡ []
      → focused_key (pos (48 + digit)) available w ≡ none
  unfolding focused_key
  focused_digit_empty digit available w small up down empty =
      let (supported, other, is_digit, value) = digit_key digit small in ground arith

  -- A key that the window does not support, as the -1 of no key, changes nothing and says nothing. A
  -- supported key in a window without the focus is only remembered as the previous key.
  pub new_key_event_passes :
      (key : ℤ) (available : Bool) (w : NodeInfoWindow D)
      → (is_supported key ≡ false) ⊎ (w.base.focused ≡ false)
      → new_key_event key available w
        ≡ (no_event, (if is_supported key then record w { previous_key = key } else w))
  unfolding new_key_event
  new_key_event_passes key available w h = ground arith

  -- In a focused window without nodes a digit answers an error with no text, and changes nothing:
  -- the previous key stays.
  pub new_key_event_empty :
      (digit : ℕ) (available : Bool) (w : NodeInfoWindow D)
      → digit ≤ 9
      → eq_ℤ (pos (48 + digit)) keys.key_up ≡ false
      → eq_ℤ (pos (48 + digit)) keys.key_down ≡ false
      → w.base.focused ≡ true
      → w.nodes ≡ []
      → let (event, w') = new_key_event (pos (48 + digit)) available w in
        (event.message ≡ record { text = []; level = core.level_error }) × (w' ≡ w)
  new_key_event_empty digit available w small up down focus empty =
      let (supported, other, is_digit, value) = digit_key digit small in
      rw
        (event_of_none (pos (48 + digit)) available w supported focus
          (focused_digit_empty digit available w small up down empty))
        (refl, refl)
