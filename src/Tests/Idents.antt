-- ===== src/Tests/Idents.antt =====
-- Identifiers as text.
