-- ===== src/Cas.antt =====
-- internal/cas: content-addressed chunks.
pub mod Chunker
pub mod Store
