-- ===== src/Vpn.antt =====
-- The VPN tunnel (backend/brup/vpn.py): the commands that a connection runs, the manager's state machine
-- and the kill switch.
pub mod Host
pub mod Lines
pub mod Profile
pub mod Tunnel
pub mod Interface
pub mod Manager
pub mod Invariant
pub mod Ends
pub mod Steps
mod Tests
