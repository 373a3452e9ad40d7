-- ===== src/Hal.antt =====
-- src/hal: the hardware abstraction modules that keep state of their own.
pub mod Gpio
pub mod Led
pub mod Watchdog
pub mod Threads
pub mod Kernel
pub mod System
pub mod Ble
