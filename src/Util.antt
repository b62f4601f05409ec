-- ===== src/Util.antt =====
-- pypsutil/_util.py: the helpers that every platform module shares.
pub mod Bitmask
pub mod Signals
pub mod NetIoCounts
pub mod Power
pub mod NullSplit
pub mod Connections
pub mod Endian
