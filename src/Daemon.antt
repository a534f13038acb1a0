-- ===== src/Daemon.antt =====
-- pywaylandauto/daemon.py: requests and the socket. The portal session is that of Portal, the
-- dispatch is in Params, Dispatch and Handle, the buffers of the clients are in Lines.
pub mod Errors
pub mod Lines
pub mod Params
pub mod Dispatch
pub mod Handle
pub mod Guard
