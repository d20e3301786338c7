-- ===== src/Tests.antt =====
-- Runs of the modelled code on concrete values, and the theorems applied to them.
mod Vaults
mod KeySlots
mod Uploads
mod Versions
mod Reviews
mod Mutations
mod Sessions
