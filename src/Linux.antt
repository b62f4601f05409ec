-- ===== src/Linux.antt =====
-- pypsutil/_pslinux.py: the platform module for Linux.
pub mod Listing
pub mod Supply
pub mod Power
pub mod Stat
pub mod Status
pub mod Maps
pub mod Sockets
pub mod Memory
pub mod Temperatures
pub mod NetDev
pub mod Netlink
pub mod NetAddrs
pub mod Files
pub mod Meminfo
pub mod CpuInfo
