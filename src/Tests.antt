-- ===== src/Tests.antt =====
-- Runs of the model on concrete inputs, over a small API server and a small cipher.
pub mod Fake
pub mod Vaults
mod Trees
mod Access
mod Handlers
mod Unlocking
mod Mounting
mod Maps
mod Saving
mod Keying
mod Starting
mod Serving
mod Settings
mod Watching
mod Pages
mod Paths
