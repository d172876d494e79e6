-- ===== src/Translate.antt =====
-- core/utils/TranslateUtility: conversions between ROS 2 messages and the core library's.
pub mod Infrastructure
pub mod Standard
pub mod Geometry
pub mod Sensor
pub mod Vision
