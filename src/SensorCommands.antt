-- ===== src/SensorCommands.antt =====
-- The C library src/lab4/c/sensor_commands.
mod Tests
pub mod Types
pub mod Sensor
pub mod Command
pub mod Factory
pub mod CommandQueue
pub mod CommandRunner
pub mod Manager
