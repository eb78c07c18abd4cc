-- ===== src/Tests.antt =====
-- Concrete inputs on which the theorems are applied, and runs of the definitions.
mod Records
mod Times
mod Conflicts
mod Tags
mod Working
mod Usage
mod Logs
mod Ciphers
mod Indexes
mod Stores
mod Compactions
mod Histories
