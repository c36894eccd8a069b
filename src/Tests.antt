-- ===== src/Tests.antt =====
-- Concrete inputs for the theorems of the other modules, and runs of the model on them.
mod Fixtures
mod Starting
mod Delivering
mod Deploying
mod Reloading
mod Loading
mod Looping
mod Syncing
mod Refreshing
mod Serving
mod Styling
mod Configuring
