-- ===== src/Tests.antt =====
-- Runs of the model and instances of its theorems at concrete inputs.
mod Strings
mod Nodes
mod Tables
mod Garbage
mod Stored
mod Files
mod Repositories
mod Restored
mod Checked
