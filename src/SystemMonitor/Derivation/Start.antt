-- ===== src/SystemMonitor/Derivation/Start.antt =====
-- How the monitor's node starts.
use robot_framework_ros.Prelude.{
  ◌≡◌, refl, ◌∙◌, Bool, true, false, Option, some, ◌||◌, arith, if◌then◌else◌,
}
use robot_framework_ros.Prelude.Run.{ok, threw}
use robot_framework_ros.Prelude.Text.{Text}
use robot_framework_ros.Platform.{Doubles, CoreLib, Curses, Params}
use robot_framework_ros.BaseNode.State.{state_running}
use robot_framework_ros.BaseNode.Topic.{load_robot_namespace}
use robot_framework_ros.BaseNode.Object.{Shared, Reads, Now, Node, construct}
use robot_framework_ros.BaseNode.Lifecycle.{main, spins, exits, dies}
use robot_framework_ros.BaseNode.Lifecycle.Start.{AllArmed}
use robot_framework_ros.Systems.Host.Kickoff.{
  BaseConfig, LoopRates, user_init, main_runs, main_gives_up, main_throws,
}
use robot_framework_ros.SystemMonitor.ArmTopic.{arm_command_topic}
use robot_framework_ros.SystemMonitor.Node.Screen.{
  shown_windows, is_narrow, node_info_perc, diagnostic_perc, menu_perc, init_windows_lem,
}
use robot_framework_ros.SystemMonitor.Dispatch.{Monitor}
use robot_framework_ros.SystemMonitor.Dispatch.Visit.{as_monitor}
use robot_framework_ros.SystemMonitor.Dispatch.Screen.{init_screen, init_windows_agrees}
use robot_framework_ros.SystemMonitor.Derivation.{
  Around, new_monitor, init_pub_subs, init_data, system_monitor,
}

module _ {D : Type 0} ⦃fl : Doubles D⦄ where
  -- Whether one of the three windows with a dashed line has no room for it.
  abbrev pub no_room : Around D → Bool
  no_room a =
      is_narrow {D = D} a.height a.width node_info_perc
      || is_narrow {D = D} a.height a.width diagnostic_perc
      || is_narrow {D = D} a.height a.width menu_perc

module _ {D P : Type 0} ⦃fl : Doubles D⦄ ⦃core : CoreLib⦄ ⦃curses : Curses⦄ (a : Around D)
    (r : Reads D) (s : Shared P) where
  -- The members behind the five functions.
  abbrev pub shown_monitor : Text → Monitor D
  shown_monitor namespace =
      as_monitor (some (arm_command_topic namespace))
        (shown_windows a.unset a.height a.width a.latest)

  user_init_lem : user_init (system_monitor a) r (s, new_monitor) ≡ (
      if curses.has_colors
      then (if no_room a then threw else ok (true, (s, shown_monitor r.robot_namespace)))
      else ok (
        false,
        (s, record new_monitor { arm_command_sub = some (arm_command_topic r.robot_namespace) }),
      ))
  unfolding system_monitor init_pub_subs init_data init_screen
  user_init_lem = ground (
    arith,
    init_windows_agrees a.unset a.height a.width a.latest
        (record new_monitor { arm_command_sub = some (arm_command_topic r.robot_namespace) }) refl,
    init_windows_lem a.unset a.height a.width a.latest,
  )

  refuses :
      curses.has_colors ≡ false
      → user_init (system_monitor a) r (s, new_monitor)
        ≡ ok (
          false,
          (s, record new_monitor { arm_command_sub = some (arm_command_topic r.robot_namespace) }),
        )
  refuses e = user_init_lem ∙ rw e refl

  throws :
      curses.has_colors ≡ true
      → no_room a ≡ true
      → user_init (system_monitor a) r (s, new_monitor) ≡ threw
  throws e f = user_init_lem ∙ rw (e, f) refl

  shows :
      curses.has_colors ≡ true
      → no_room a ≡ false
      → user_init (system_monitor a) r (s, new_monitor)
        ≡ ok (true, (s, shown_monitor r.robot_namespace))
  shows e f = user_init_lem ∙ rw (e, f) refl

module _ {D P : Type 0} ⦃fl : Doubles D⦄ ⦃core : CoreLib⦄ ⦃curses : Curses⦄ ⦃params : Params D P⦄
    (a : Around D) (host : Option Text) (now : Now D) (base_node_name node_name : Text)
    (p : P) where
  -- What `main` does with a new monitor: whether the terminal has colors, and whether a window has no
  -- room.
  abbrev pub IsStarted : Text → Bool → Bool → Type 0
  IsStarted namespace false narrow =
      main (system_monitor a) host now (construct base_node_name node_name p new_monitor) ≡ exits 1
  IsStarted namespace true true =
      main (system_monitor a) host now (construct base_node_name node_name p new_monitor) ≡ dies
  IsStarted namespace true false =
      (m : Node D P (Monitor D)) × (main (system_monitor a) host now
          (construct base_node_name node_name p new_monitor)
        ≡ spins m)
      × (m.node_state ≡ state_running)
      × AllArmed m.timers
      × (m.user
          ≡ as_monitor (some (arm_command_topic namespace))
              (shown_windows a.unset a.height a.width a.latest))

  -- `main` of the system monitor, with the parameters of `BaseNode` given, among them rates of its user
  -- loops whose periods rclcpp takes. On a terminal without
  -- colors it returns 1. On one whose screen has no room for a window with a dashed line it ends by
  -- the exception that the constructor throws. Otherwise the node is spun, RUNNING and with its timers
  -- running: it has its six windows, in the map under their names, and its subscription to arm
  -- commands.
  pub monitor_main :
      (c : BaseConfig params p node_name)
      → LoopRates params c.p3
      → IsStarted (load_robot_namespace c.robot) curses.has_colors (no_room a)
  monitor_main c rates = go curses.has_colors (no_room a) refl refl
    where
      go :
          (colors narrow : Bool)
          → curses.has_colors ≡ colors
          → no_room a ≡ narrow
          → IsStarted (load_robot_namespace c.robot) colors narrow
      go false narrow e f = main_gives_up (system_monitor a) host now _ _ _ c refl (refuses a _ _ e)
      go true true e f = main_throws (system_monitor a) host now _ c refl (throws a _ _ e f)
      go true false e f =
          main_runs (system_monitor a) host now _ _ _ c refl refl (shows a _ _ e f) rates
