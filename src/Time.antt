-- ===== src/Time.antt =====
-- kernel/time and arch/i386/time: events that become due, and the timer that counts them down.
pub mod Clock
pub mod Pit
