-- ===== src/Lib.antt =====
-- Verification of the ROS 2 robot framework: the base class of its nodes, the translation of its
-- messages, the nodes of its systems, and the system monitor.
--
-- A node of the framework derives `BaseNode` (include/robot_framework_ros2/BaseNode.hpp,
-- core/BaseNode/BaseNode.cpp). The base class owns the node's state, its timers, heartbeat,
-- diagnostics and namespaces, and calls the derived class's functions at fixed places of `init`,
-- `start`, `reset` and the timer callbacks. The messages that it sends are translated from those of
-- the core library by `TranslateUtility` (core/utils/TranslateUtility). The system monitor
-- (Tools/Applications/SystemMonitor) is one such node: it listens to the heartbeats, diagnostics and
-- arming status of all others and shows them in windows. The nodes of Systems are others: each is
-- built around a process of the core library, which it updates and whose results it publishes.
--
-- The files:
--   Prelude          numbers and their tests, int16_t, texts as byte lists, std::map as the list of
--                    its entries in key order, and member functions that return, throw or fault
--                    (Run), also those that change no object (Fallible).
--   Platform         what the code uses and the repository does not hold, as interfaces: C++ doubles,
--                    the core library fast::rf (the numbers of its enumerators, its logger and
--                    printers), the key codes, windows and colors of ncurses, rclcpp's
--                    declare_parameter, the periods that its create_wall_timer takes, its time, tf2
--                    and PCL. Platform/Toy has instances of them.
--   Messages         the fields of msg/ and srv/, and the core library's messages.
--   Translate        TranslateUtility::convert: one function for each overload, named by the message
--                    and the direction. Infrastructure, Standard (vectors, points, accelerations,
--                    twists, covariances), Geometry (orientations, poses, odometry, boxes), Sensor and
--                    Vision follow the source's files; what a stamp throws and what a covariance writes
--                    past an array are results.
--   BaseNode/State   requestNodeStateChange, and CoreUtility::pretty.
--   BaseNode/Topic   getNamespacedTopic, and the namespaces of baseLoadConfig.
--   BaseNode/Object  the data members as the record Node, the constructor as `construct`, and the
--                    functions of a derived class as the record Derived.
--   BaseNode/Lifecycle   init, start, reset and main.
--   BaseNode/Timing      TimerLoopTiming::run, the timer callbacks, baseRun10Hz and baseRun1Hz.
--   BaseNode/Service     changeLoggerLevelService and pretty.
--   SystemMonitor/ArmTopic   the topic of the monitor's subscription to arm commands.
--   SystemMonitor/Window     Definitions.hpp and BaseWindow.
--   SystemMonitor/NodeInfo      NodeInfoWindow: the nodes and the update; NodeInfo/Row the text of a
--                    row and of the header; NodeInfo/Keys its key events, NodeInfo/Abstract
--                    the list as a function from names.
--   SystemMonitor/Message       MessageWindow.
--   SystemMonitor/Diagnostics   DiagnosticWindow: the diagnostics of each node, their age and the
--                    color of their rows.
--   SystemMonitor/Node          SystemMonitorNode: the callbacks, run10Hz and the scan of the network;
--                    Node/Screen the making of the windows, Node/Reach the runs of the monitor.
--   SystemMonitor/Header        HeaderWindow.
--   SystemMonitor/Menu          MenuWindow.
--   SystemMonitor/Diagnostics/Reading, Node/Armed, Node/Scan/Targets
--                    what a row, the header and a scan are to show, described apart from the code.
--   SystemMonitor/Dispatch      IWindow: the windows in the node's map, with the virtual functions; run10Hz,
--                    the callbacks and the start of the windows over the map. Dispatch/Visit and
--                    Agree compare them with SystemMonitor/Node, which has the six windows as fields.
--   SystemMonitor/Derivation    SystemMonitorNode as a value of Derived: Start has its main, Events what
--                    the executor runs, Follow and Safe what holds of it.
--   Systems/Host     what the nodes of Systems share: a process among their members, with the abstract
--                    steps that a timer or a message is (Follow, Seen) and the start of a node with
--                    its parameters given (Kickoff).
--   Systems/ServoHat, ArmedStateManager, ImuNode, InertialSensorFuser, LocalPoseFuser, DepthCamera
--                    one node each: its members, its functions as a value of Derived, its callbacks.
--   Examples         the theorems at concrete inputs.
--
-- How it is modelled. A member function takes the object and answers with a value and the object
-- behind the call, or with an exception, or with undefined behaviour (`fault`), which is what a call
-- through a null pointer is. A function of the derived class works on the members that BaseNode lets
-- it change (record Shared) and on its own; BaseNode's private members are out of its reach, as they
-- are in C++. The clock, read once for each callback, and the time that it takes are arguments: a
-- run of the executor is a list of callbacks with their times. Published messages are collected
-- in order. Numbers are natural numbers, with the conversions to uint8_t, uint16_t and int16_t
-- written out where the source has them. Every loop is a recursion on a list or on the count of
-- its steps, so no fuel is chosen. A process of the core library is a record of its operations
-- over an abstract state, its getters functions of that state; a theorem about a node holds of
-- every such process. A subscription or a publisher is the topic it is made for, or null.
-- The monitor's node is modelled twice: with its windows in a map, as the code has them, and with one
-- field for each window, which most lemmas are about. The terminal keeps its size.
--
-- Not modelled: log lines, the frames that ncurses draws, the ROS middleware, locks (the node runs in a
-- single-threaded executor), and the classes of the core library. The text that
-- a node of Systems writes about itself (pretty of these classes) only goes to the log.
pub mod Prelude
pub mod Platform
pub mod Messages
pub mod Translate
pub mod BaseNode
pub mod SystemMonitor
pub mod Systems
pub mod Examples
