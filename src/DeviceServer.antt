-- ===== src/DeviceServer.antt =====
-- The device server of src/lab3.
pub mod Program
pub mod Command
pub mod CommandManager
pub mod TransportServer
