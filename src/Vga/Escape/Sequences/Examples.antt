-- ===== src/Vga/Escape/Sequences/Examples.antt =====
-- An escape sequence that breaks off.
