-- ===== src/Translate.antt =====
-- internal/translate: the bodies that are rewritten on their way upstream.
pub mod Chat
pub mod Dsml
pub mod Claude
