-- ===== src/Vga.antt =====
-- kernel/src/vga_text_buffer.rs: text on the frame buffer.
pub mod Color
pub mod Escape
pub mod Writer
