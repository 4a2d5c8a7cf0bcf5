-- ===== src/Intruder.antt =====
-- Intruder (backend/brup/intruder.py): templates with payload positions, and the jobs of an attack.
pub mod Template
pub mod Jobs
pub mod Attack
mod Tests
