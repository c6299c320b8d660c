-- ===== src/Auth.antt =====
-- Who may do what: comparing secrets, and the state of a share.
pub mod TimingSafeEqual
mod Tests
