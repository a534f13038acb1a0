-- ===== src/Portal.antt =====
-- pywaylandauto/backends/portal.py: the session's state and its world in World, the D-Bus errors in
-- Errors, the flow of a session in Start, Select, Link and Flow, input in Input.
pub mod World
pub mod Errors
pub mod Start
pub mod Select
pub mod Link
pub mod Flow
pub mod Input
