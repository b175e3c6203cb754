-- ===== src/Graphics/Multiboot.antt =====
-- The fields of `multiboot_info_t` of src/kernel/kernel.h that describe a frame buffer.
use openkernel.Base.{ℕ}

pub record MultibootInfo : Type 0 where
  pub flags : ℕ
  pub framebuffer_addr_low : ℕ
  pub framebuffer_pitch : ℕ
  pub framebuffer_width : ℕ
  pub framebuffer_height : ℕ
  pub framebuffer_bpp : ℕ
  pub framebuffer_type : ℕ
