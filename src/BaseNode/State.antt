-- ===== src/BaseNode/State.antt =====
-- The node's state: msg/NodeState.msg, `BaseNode::requestNodeStateChange` and
-- core/utils/CoreUtility/CoreUtility.cpp. A state is its `uint8` number.
pub mod Transitions
use robot_framework_ros.Prelude.{ℕ, Bool, true, false, not, ◌==◌, if◌then◌else◌}
use robot_framework_ros.Prelude.Text.{Text, text}

abbrev pub state_unknown : ℕ
state_unknown = 0

abbrev pub state_initializing : ℕ
state_initializing = 1

abbrev pub state_starting : ℕ
state_starting = 2

abbrev pub state_running : ℕ
state_running = 3

abbrev pub state_paused : ℕ
state_paused = 4

abbrev pub state_restart : ℕ
state_restart = 5

abbrev pub state_finished : ℕ
state_finished = 6

-- The ladder of tests that computes `stateChangeAllowed`; `override` is the parameter's name.
unfoldable pub state_change_allowed : ℕ → ℕ → Bool → Bool
state_change_allowed current new override =
    if not override
    then (if current == state_unknown
        then new == state_initializing
        else if current == state_initializing
        then new == state_starting
        else if current == state_starting
        then new == state_running
        else if current == state_running
        then new == state_starting
        else false)
    else false

-- The answer, and the state after the call.
unfoldable pub request_state_change : ℕ → ℕ → Bool → Bool × ℕ
unfolding state_change_allowed
request_state_change current new override =
    if current == new
    then (true, current)
    else if state_change_allowed current new override
    then (true, new)
    else (false, current)

-- `CoreUtility::pretty`.
unfoldable pub pretty_state : ℕ → Text
pretty_state s =
    if s == state_unknown
    then text "UNKNOWN"
    else if s == state_initializing
    then text "INITIALIZING"
    else if s == state_starting
    then text "STARTING"
    else if s == state_running
    then text "RUNNING"
    else if s == state_paused
    then text "PAUSED"
    else if s == state_restart
    then text "RESTART"
    else if s == state_finished
    then text "FINISHED"
    else text "UNKNOWN"
