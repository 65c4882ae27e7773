-- ===== src/Interpreter/Channel.antt =====
-- compiler/gof-compiler/src/interpreter.rs: `ChannelHandle`, and threads that share one.
pub mod State
pub mod Rounds
pub mod System
pub mod Buffered
pub mod Waiting
pub mod Lost
mod Tests
