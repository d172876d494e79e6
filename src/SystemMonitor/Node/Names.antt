-- ===== src/SystemMonitor/Node/Names.antt =====
-- Which node a message is counted for.
use robot_framework_ros.Prelude.{
  ℕ, ◌+◌, ◌-◌, ◌≡◌, refl, ap, ◌∙◌, true, ◌++◌, length, take, length-append, take-append, leb, arith,
  if◌then◌else◌,
}
use robot_framework_ros.Prelude.Text.{Text, text}
use robot_framework_ros.Platform.{Doubles}
use robot_framework_ros.Messages.{Heartbeat, Diagnostic, ReadyToArm}
use robot_framework_ros.SystemMonitor.NodeInfo.{new_heartbeat_msg, new_ready_to_arm_msg}
use robot_framework_ros.SystemMonitor.Diagnostics.{new_diagnostic_msg}
use robot_framework_ros.SystemMonitor.Node.{
  MonitorNode, cut, heartbeat_callback, diagnostic_callback, ready_to_arm_callback,
}

cut-append : (node end : Text) → cut (length end) (node ++ end) ≡ node
unfolding cut
cut-append node end =
    ap (λ k. if leb (length end) k then take (k - length end) (node ++ end) else node ++ end)
      (length-append node end)
    ∙ fits (length node) (length end) (node ++ end)
    ∙ take-append node end
  where
    fits : (j k : ℕ) (s : Text) → (if leb k (j + k) then take (j + k - k) s else s) ≡ take j s
    fits j k s = rw (not_above j k, ends j k) refl
      where
        not_above : (j k : ℕ) → leb k (j + k) ≡ true
        not_above j k = ground arith

        ends : (j k : ℕ) → j + k - k ≡ j
        ends j k = omega arith

module _ {D : Type 0} ⦃fl : Doubles D⦄ where
  -- A message on one of the three topics that `BaseNode` publishes under a node's name is taken for
  -- one of the node of exactly that full name, whatever node name stands in it.
  pub callback_names :
      (node : Text) (h : Heartbeat) (d : Diagnostic) (r : ReadyToArm) (n : MonitorNode D)
      → (heartbeat_callback h (node ++ text "/heartbeat") n
          ≡ record n { node_info = new_heartbeat_msg (record h { nodename = node }) n.node_info })
        × (diagnostic_callback d (node ++ text "/diagnostic") n ≡ record n {
          diagnostic = new_diagnostic_msg (record d { node_name = node }) n.diagnostic;
        })
        × (ready_to_arm_callback r (node ++ text "/ready_to_arm") n ≡ record n {
          node_info = new_ready_to_arm_msg (record r { nodename = node }) n.node_info;
        })
  unfolding heartbeat_callback diagnostic_callback ready_to_arm_callback
  callback_names node h d r n = (
    ap
        (λ (s : Text). record n {
          node_info = new_heartbeat_msg (record h { nodename = s }) n.node_info;
        })
        (cut-append node (text "/heartbeat")),
    ap
        (λ (s : Text). record n {
          diagnostic = new_diagnostic_msg (record d { node_name = s }) n.diagnostic;
        })
        (cut-append node (text "/diagnostic")),
    ap
        (λ (s : Text). record n {
          node_info = new_ready_to_arm_msg (record r { nodename = s }) n.node_info;
        })
        (cut-append node (text "/ready_to_arm")),
  )
