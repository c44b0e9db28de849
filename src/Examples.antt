-- ===== src/Examples.antt =====
-- Concrete instances of what the models take as parameters, runs, and the theorems at work on them.
pub mod Codec
pub mod Given
mod Stores
mod Wires
mod Logs
mod Sessions
mod Requests
mod Clients
mod Starts
mod Desk
mod Certs
mod Boots
