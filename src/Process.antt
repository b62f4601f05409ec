-- ===== src/Process.antt =====
-- pypsutil/_process.py: process handles, the process list, waiting.
pub mod Handle
pub mod Identity
pub mod Iter
pub mod Children
pub mod Os
pub mod Wait
pub mod WaitProcs
pub mod Oneshot
pub mod Parents
