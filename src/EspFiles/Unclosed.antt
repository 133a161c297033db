-- ===== src/EspFiles/Unclosed.antt =====
-- A file that is written and not closed.
