-- ===== src/Traceroute.antt =====
-- 07-sockets/traceroute/successive_traceroute: the hops on the way to a host.
pub mod Options
pub mod Ranges
pub mod Probe
pub mod Hop
pub mod Memory
pub mod Release
pub mod Leaks
pub mod Sharing
pub mod Loop
pub mod Run
pub mod Basic
pub mod Threaded
mod Tests
pub mod Outcome
