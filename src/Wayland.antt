-- ===== src/Wayland.antt =====
-- The Wayland connection, pywaylandauto/backends/wayland.py: the wire format in Messages, the tables
-- of requests and events in Tables, and `WaylandConnection` in Connection.
pub mod Messages
pub mod Tables
pub mod Connection
