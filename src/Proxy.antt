-- ===== src/Proxy.antt =====
-- sw/proxy.c: its static variables as one record, and the requests that it makes of the layers below.
pub mod State
pub mod Fifo
pub mod Callbacks
pub mod Dispatch
pub mod Descriptors
pub mod Endpoints
pub mod Delivery
pub mod Polling
pub mod Run
pub mod Selection
mod Tests
