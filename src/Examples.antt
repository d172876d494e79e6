-- ===== src/Examples.antt =====
-- The theorems at concrete inputs, over the interfaces of Platform/Toy.antt.
mod Derivation
mod Toy
mod BaseNode
mod Lifecycle
mod Timing
mod Monitor
mod NodeList
mod Windows
mod Systems
mod Manager
mod Sensors
mod Reach
