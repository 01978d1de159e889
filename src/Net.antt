-- ===== src/Net.antt =====
-- src/net: the network side of the driver.
pub mod Interactive
pub mod Connection
pub mod Binding
pub mod Unbinding
