-- ===== src/Appointment.antt =====
-- Who helps to run a venue or an event, and what it lets them do: src/modules/appointment.
pub mod Data
pub mod Access
pub mod Team
pub mod Granted
pub mod Experience
