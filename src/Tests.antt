-- ===== src/Tests.antt =====
-- Runs on concrete inputs, and the theorems at such inputs.
mod Sample
mod Packing
mod Client
mod Rotator
mod Account
mod Transact
mod Bundler
mod Bindings
mod Connect
mod Threads
