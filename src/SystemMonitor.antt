-- ===== src/SystemMonitor.antt =====
-- Tools/Applications/SystemMonitor: the windows of the monitor and its node, in child modules.
pub mod ArmTopic
pub mod Window
pub mod NodeInfo
pub mod Message
pub mod Diagnostics
pub mod Header
pub mod Menu
pub mod Node
pub mod Dispatch
pub mod Derivation
