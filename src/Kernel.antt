-- ===== src/Kernel.antt =====
-- The kernel as a whole: the steps that its processes take through `Processes`, `Scheduling` and
-- `Calls`, and the states that they reach.
pub mod Steps
pub mod Soundness
pub mod Descriptors
pub mod Multiboot
pub mod Entry
