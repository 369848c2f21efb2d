-- ===== src/Entities.antt =====
-- sensor.py, binary_sensor.py, button.py: the entities of a machine and what they show.
pub mod Alarms
pub mod Status
pub mod Sensors
pub mod Buttons
pub mod Press
pub mod Names
pub mod Options
pub mod Bits
pub mod Distinct
