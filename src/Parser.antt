-- ===== src/Parser.antt =====
-- src/protocol/itch_parser.cpp: the definitions in Switch, Message and Frame, the proofs below them.
pub mod Switch
pub mod Message
pub mod Frame
pub mod Local
pub mod Total
pub mod OverRead
pub mod Blocks
pub mod Encode
pub mod RoundTrip
pub mod Kinds
