-- ===== src/Device.antt =====
-- The device layer: nemu/src/device and nemu/include/device.
pub mod Map
pub mod Access
pub mod Clock
pub mod Keyboard
pub mod Timer
pub mod Serial
pub mod Audio
pub mod Vga
pub mod Update
pub mod Sdcard
pub mod Port
pub mod Alarm
pub mod Mmio
pub mod Table
pub mod Init
