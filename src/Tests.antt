-- ===== src/Tests.antt =====
-- Concrete runs of each part: every property of the development at an input where it applies.
mod Fixtures
mod Table
mod Radio
mod Lifecycle
mod Uplink
mod Socket
mod Lights
mod Lora
mod Bringup
mod Wifi
mod Recovery
mod Device
mod Air
