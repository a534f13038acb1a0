-- ===== src/Eis.antt =====
-- The EIS client: backends/eis_messages.py in Messages, and of backends/eis.py the reassembly of
-- the byte stream in Frames.
pub mod Messages
pub mod Frames
pub mod Tables
pub mod Client
