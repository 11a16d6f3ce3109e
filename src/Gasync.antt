-- ===== src/Gasync.antt =====
-- sw/lib/gasync: the asynchronous input and output that the PC program stands on.
pub mod Poll
pub mod Timer
pub mod Async
pub mod Serial
pub mod Usb
mod Tests
