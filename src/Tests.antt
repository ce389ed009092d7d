-- ===== src/Tests.antt =====
-- Runs and instances of the theorems at concrete states: the tests of src/resident/core.rs and the
-- scenarios of its documentation.
mod Core
mod Witnesses
mod Naming
mod Framing
mod Journal
mod Cancellation
mod Replacement
mod Host
mod Binding
mod Shell
