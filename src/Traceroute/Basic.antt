-- ===== src/Traceroute/Basic.antt =====
-- 07-sockets/traceroute/basic_traceroute: the first version of the route tracer, in one file. It sends
-- one probe at a time, prints while it goes, and keeps its probes in an array of a fixed size.
pub mod Options
pub mod Probe
pub mod Run
mod Agree
mod Frame
mod Outcome
mod Hops
mod Receive
mod Bounds
mod Early
mod Tests
