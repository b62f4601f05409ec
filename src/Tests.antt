-- ===== src/Tests.antt =====
-- The theorems at concrete inputs.
mod Processes
mod Helpers
mod SystemWide
mod Procfs
mod Sockets
mod Readers
mod Netlink
mod Oneshot
mod Files
mod Figures
