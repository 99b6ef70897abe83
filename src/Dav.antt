-- ===== src/Dav.antt =====
-- backend/internal/dav: the address books and calendars.
pub mod Store
pub mod Objects
mod Tests
