-- ===== src/Gui.antt =====
-- The desktop client of src/gui.rs: its settings, its window and the client that it runs.
pub mod Settings
pub mod App
pub mod Window
pub mod Safety
pub mod Steps
pub mod Logs
pub mod Reconnects
pub mod Quiet
pub mod Attempts
