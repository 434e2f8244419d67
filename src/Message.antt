-- ===== src/Message.antt =====
-- src/message.h and src/message.c: values, the builder of a message, its encoding and its decoding.
pub mod Bytes
pub mod Values
pub mod Builder
pub mod Roundtrip
pub mod Counting
pub mod Pushes
pub mod Sending
pub mod Steps
pub mod Changes
pub mod Setters
pub mod Delivery
