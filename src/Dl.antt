-- ===== src/Dl.antt =====
-- src/dl.c: the downloaders.
pub mod Media
pub mod Cache
pub mod Queue
pub mod Stream
