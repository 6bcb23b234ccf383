-- ===== src/Availability.antt =====
-- Whether what is booked is free: src/modules/availability.
pub mod Schedule
pub mod Check
