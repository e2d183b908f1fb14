-- ===== src/Tests.antt =====
-- Runs of the modelled code on small databases, and the theorems applied to them.
mod Samples
mod Cycles
mod Stores
mod Compiling
mod Contexts
mod Timings
mod Accounts
