-- ===== src/SystemMonitor/Window/Selection.antt =====
-- The selected record of a window moves inside the list of records, as long as there is one.
use Prim.Native.Nat.{min}
use robot_framework_ros.Prelude.{ℕ, ◌+◌, ◌-◌, ◌≤◌, ◌<◌, ◌≡◌, arith}
use robot_framework_ros.Prelude.Int.{pos, negsuc}
use robot_framework_ros.SystemMonitor.Window.{
  BaseWindow, decrement_selected_record, increment_selected_record,
}

-- With at least one record, and no more than an `int16_t` can count, the key down moves the selection
-- to the next record and stays on the last one, the key up moves it to the one before and stays on
-- the first, and both leave the rest of the window as it was.
pub moves_in_range :
    {D : Type 0} (w : BaseWindow D) (k : ℕ)
    → w.record_selected ≡ pos k
    → k < w.record_count
    → w.record_count ≤ 32767
    → (increment_selected_record w
        ≡ record w { record_selected = pos (min (k + 1) (w.record_count - 1)) })
      × (decrement_selected_record w ≡ record w { record_selected = pos (k - 1) })
unfolding increment_selected_record decrement_selected_record
moves_in_range w k s lt small = ground arith

-- With no record, the key down takes the selection from 0 to -1, where no record is, and the key up
-- takes it back.
pub empty_moves_out :
    {D : Type 0} (w : BaseWindow D)
    → w.record_selected ≡ pos 0
    → w.record_count ≡ 0
    → ((increment_selected_record w).record_selected ≡ negsuc 0)
      × (decrement_selected_record (increment_selected_record w) ≡ w)
unfolding increment_selected_record decrement_selected_record
empty_moves_out w s none_left = ground arith
