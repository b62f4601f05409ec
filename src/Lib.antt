-- ===== src/Lib.antt =====
-- pypsutil: processes and system information in Python.
--
-- The program reads what an operating system tells about processes and about the machine. Its layers:
-- pypsutil/_process.py has the `Process` object and the functions over all processes,
-- pypsutil/_system.py the functions on the machine, pypsutil/_util.py the data classes and helpers they
-- share, and one module for each platform (here pypsutil/_pslinux.py) asks the system.
--
-- Files, by the code they are about:
--   Process/Handle    the object `Process`: its fields, `__init__`, `_create`, `is_running`,
--                     `_check_running`, `__eq__` (pypsutil/_process.py)
--   Process/Identity  handles against PIDs that are handed out again
--   Process/Iter      `_process_iter_impl` and the cache of handles it keeps
--   Process/Parents   `parent` and `parents`
--   Process/Children  `children`; the search on PIDs alone in Children/Pids, its end and result in
--                     Children/Search, what a round lists in Children/Rows, and the search with
--                     handles in Children/Below
--   Process/Os        the operations of the system that `wait` uses, a record
--   Process/Wait      `wait`, `_wait_child_poll`, `pid_exists`; its end in Wait/Total, how it ends in
--                     Wait/Looks and Wait/Ends, and the handle it keeps in Wait/SamePid
--   Process/WaitProcs `wait_procs` and `Popen.wait`; that no process gets lost in WaitProcs/Partition and
--                     WaitProcs/Held, its end in WaitProcs/Total
--   Process/Oneshot   `CachedByProcess` (pypsutil/_cache.py) and `oneshot`: one value for each function in
--                     Oneshot/Snapshot and Oneshot/Left, no change of results in Oneshot/Steady
--   Linux/Listing     `iter_pid_raw_create_time` (pypsutil/_pslinux.py), which feeds process_iter
--   Linux/Supply      `PowerSupplyInfo`; Linux/Power the readers of power supplies above it
--   Linux/Stat        the line of `/proc/<pid>/stat` and the functions that read one field of it
--   Linux/Status      the entries of `/proc/<pid>/status` and their readers
--   Linux/Maps        `proc_memory_maps`, `group_memory_maps` and `memory_maps_grouped`
--   Linux/Sockets     `_iter_connections`; `proc_connections` and `net_connections` in Sockets/Join,
--                     with what is found and reported in Sockets/Found, Sockets/LastRows and
--                     Sockets/Once
--   Linux/Memory      `proc_memory_full_info` and `proc_sigmasks`
--   Linux/Temperatures, Linux/NetDev   `sensors_temperatures`, and the table of network counters
--   Linux/Netlink     `NetlinkSocket` and `decode_rtattrs`: bytes in Netlink/Layout and
--                     Netlink/Headers, attributes and messages read back in Netlink/Attrs and
--                     Netlink/Messages, and what stands behind a message in Netlink/Overrun and
--                     Netlink/Hang
--   Linux/NetAddrs    `net_if_addrs`: attributes; NetAddrs/Join the loops above them; what they read in
--                     NetAddrs/Read and NetAddrs/Exact, the result in NetAddrs/Known,
--                     NetAddrs/Sorted, NetAddrs/Families and NetAddrs/Listing, the loop that
--                     starts over in NetAddrs/Retry
--   Linux/Files       `proc_open_files`; `proc_iter_fds` in Files/Info and Files/Fds; that they agree in
--                     Files/Agree
--   Linux/Meminfo, Linux/CpuInfo   `virtual_memory` and `swap_memory`, with the file's lines in
--                     Meminfo/Lines; `physical_cpu_count`, `cpu_stats`,
--                     `cpu_times` and `percpu_times`
--   Util/...          `expand_bitmask`, `expand_sig_bitmask`, `_iter_null_split_pre` and its two clients,
--                     `NetIOCounts`, `BatteryInfo`, `PowerSupplySensorInfo`, `conn_kind_to_combos`,
--                     byte order and IPv4 addresses (pypsutil/_util.py)
--   System/...        network counters, and batteries (pypsutil/_system.py)
--   Prelude           numbers, lists, dictionaries, text, Python's exceptions as values
--   Tests             concrete runs
--
-- State is passed on: a function that changes an object or a cache returns it. An exception is a value
-- of `Result`, or of `Option Exn` at the end of a generator's items. A dictionary is an association
-- list, a set a list. What the platform answers is an argument: the files of procfs and sysfs as data,
-- the system that `wait` talks to as the record `Os` of functions on a world, and the kernel's promise
-- about start times as the record `Kernel`. That a clock goes on is the record `IsClock`.
--
-- Bounds: PIDs, start times, counters and times in nanoseconds are natural numbers. `while` loops
-- without a bound in the code run on fuel: the search of `children` needs one round more than there
-- are processes, and `wait` with a timeout the number of pauses of 10 ms in it and two rounds, and
-- `wait_procs` at most twice as many, `parents` one more than the height of the process; all are
-- proved. The loops of Netlink end within 2049 rounds on what one datagram of 8192 bytes can hold.
-- Loops over data are recursion on the data.
--
-- Not modelled: the BSD and macOS modules, the bindings through ctypes and the compatibility layer
-- for psutil; of the modules above `Popen` but for its `wait`, the frequencies of CPUs, the
-- statistics of interfaces, and what only forwards to the platform; locks, since one thread runs;
-- exceptions of the callback of `wait_procs`.
-- Negative numbers of power supplies are not modelled either, such as a current or a temperature
-- below 0. The addresses of sockets are kept as numbers, without their printing.
pub mod Prelude
pub mod Util
pub mod Linux
pub mod Process
pub mod System
mod Tests
