-- ===== src/Channel.antt =====
-- src/lc_channel.c: one channel, with its queues of messages, readers and writers.
pub mod Defs
pub mod Laws
pub mod Reading
pub mod Runs
pub mod Passing
pub mod Traces
pub mod Closing
pub mod Buffering
pub mod Registry
