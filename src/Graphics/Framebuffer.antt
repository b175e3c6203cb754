-- ===== src/Graphics/Framebuffer.antt =====
-- src/kernel/framebuffer.c: the frame buffer that the boot loader hands over, and drawing in it.
pub mod Pixels
use Prim.Native.Nat.{bit_and}
use openkernel.Base.{ℕ, ◌+◌, ◌*◌, ◌%◌, ◌^◌, Bool, true, false, ◌||◌, ltb, leb, ◌==◌, if◌then◌else◌}
use openkernel.Graphics.Bytes.{Bytes, store32}
use openkernel.Graphics.Multiboot.{MultibootInfo}
use openkernel.Graphics.Canvas.{fill_rect, draw_rect}

pub record FbInfo : Type 0 where
  pub address : ℕ
  pub pitch : ℕ
  pub width : ℕ
  pub height : ℕ
  pub bpp : ℕ
  pub type : ℕ

-- `fb` and `fb_initialized`
pub record Framebuffer : Type 0 where
  pub fb : FbInfo
  pub fb_initialized : Bool

unfoldable pub fb_init : MultibootInfo → Framebuffer → Framebuffer
fb_init mbd f =
    let read : FbInfo = record {
      address = mbd.framebuffer_addr_low;
      pitch = mbd.framebuffer_pitch;
      width = mbd.framebuffer_width;
      height = mbd.framebuffer_height;
      bpp = mbd.framebuffer_bpp;
      type = mbd.framebuffer_type;
    } in
    if bit_and mbd.flags (2 ^ 12) == 0
    then record f { fb_initialized = false }
    else (if read.type == 1
        then (if read.bpp == 32
            then record { fb = read; fb_initialized = true }
            else record { fb = read; fb_initialized = false })
        else record { fb = read; fb_initialized = false })

unfoldable pub fb_init_direct : ℕ → ℕ → ℕ → ℕ → ℕ → Framebuffer
fb_init_direct address width height pitch bpp = record {
  fb = record {
    address = address;
    pitch = pitch;
    width = width;
    height = height;
    bpp = bpp;
    type = 1;
  };
  fb_initialized = bpp == 32;
}

unfoldable pub fb_available : Framebuffer → Bool
fb_available f = f.fb_initialized

unfoldable pub fb_get_info : Framebuffer → FbInfo
fb_get_info f = f.fb

unfoldable pub fb_putpixel : Framebuffer → ℕ → ℕ → ℕ → Bytes → Bytes
fb_putpixel f x y color m =
    let offset = (y * f.fb.pitch + x * 4) % 2 ^ 32 in
    if f.fb_initialized
    then (if leb f.fb.width x || leb f.fb.height y then m else store32 m offset color)
    else m

unfoldable pub fb_fill_rect : Framebuffer → ℕ → ℕ → ℕ → ℕ → ℕ → Bytes → Bytes
unfolding fill_rect
fb_fill_rect f x y w h color m = fill_rect (fb_putpixel f) x y color w h m

unfoldable pub fb_draw_rect : Framebuffer → ℕ → ℕ → ℕ → ℕ → ℕ → Bytes → Bytes
unfolding draw_rect
fb_draw_rect f x y w h color m = draw_rect (fb_putpixel f) x y color w h m

unfoldable pub fb_clear : Framebuffer → ℕ → Bytes → Bytes
unfolding fb_fill_rect
fb_clear f color m = fb_fill_rect f 0 0 f.fb.width f.fb.height color m
