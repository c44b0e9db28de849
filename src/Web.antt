-- ===== src/Web.antt =====
-- The administration API (src/web and src/error.rs). A handler takes the deserialized request and
-- gives back the value that it serializes.
pub mod Errors
pub mod Trim
pub mod Routes
pub mod Values
pub mod Socket
pub mod Assets
pub mod Paths
pub mod Table
pub mod App
pub mod Guarded
pub mod Answering
pub mod Handling
pub mod Serving
pub mod Requests
pub mod Keeping
pub mod Safety
pub mod Missing
pub mod Refusals
pub mod Cookies
pub mod Login
