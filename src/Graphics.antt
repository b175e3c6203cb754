-- ===== src/Graphics.antt =====
-- The graphics of the kernel: src/kernel/framebuffer.c, src/kernel/display.c, src/kernel/vbe.c and
-- the font of src/kernel/font.h. Pixels are bytes of the frame buffer, counted from its address.
pub mod Bytes
pub mod Offsets
pub mod Canvas
pub mod Multiboot
pub mod Framebuffer
pub mod Font
pub mod Display
pub mod Ports
pub mod Registers
pub mod Backends
pub mod Vbe
mod Tests
