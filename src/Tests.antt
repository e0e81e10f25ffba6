-- ===== src/Tests.antt =====
-- The properties at concrete inputs where their hypotheses hold.
mod Devices
mod Files
mod Calls
mod Image
mod Kernel
mod Library
mod Programs
mod Userland
mod Rounds
