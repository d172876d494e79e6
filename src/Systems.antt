-- ===== src/Systems.antt =====
-- Systems: the nodes of the example systems, each around a process of the core library.
pub mod Host
pub mod ServoHat
pub mod ArmedStateManager
pub mod ImuNode
pub mod InertialSensorFuser
pub mod LocalPoseFuser
pub mod DepthCamera
