-- ===== src/Engine/Laws.antt =====
-- The engine fails closed.
