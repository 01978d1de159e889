-- ===== src/Net/Connection.antt =====
-- src/net/Connection.cpp and include/kjdmud/net/Connection.hpp: a connection of a client.
pub mod State
pub mod Output
pub mod Protocols
pub mod Frames
pub mod Telnet
pub mod Input
pub mod Items
pub mod Delivery
pub mod Typed
pub mod Masking
pub mod FrameCut
pub mod FrameHead
pub mod FrameLaws
pub mod FrameStuck
