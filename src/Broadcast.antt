-- ===== src/Broadcast.antt =====
-- The broadcast of src/Broadcast.hpp and src/Broadcast.cpp.
pub mod State
pub mod Platform
pub mod Targets
pub mod Calls
pub mod Settings
pub mod Subscription
pub mod Reconnect
pub mod Frames
pub mod Thread
pub mod Forward
pub mod Messages
pub mod Limits
pub mod Feed
pub mod Screenshot
pub mod Start
pub mod Disconnect
