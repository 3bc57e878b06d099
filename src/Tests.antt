-- ===== src/Tests.antt =====
-- Runs of the model on concrete inputs, and the theorems at concrete inputs.
mod Slices
mod Codings
mod Comparators
mod Hashes
mod Keys
mod Memory
mod Statuses
mod SkipLists
mod Environments
