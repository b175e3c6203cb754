-- ===== src/Keyboard/Tables.antt =====
-- The scancode tables of src/kernel/keyboard.c, and the choice of a pair by the layout.
pub mod West
pub mod North
pub mod East
use openkernel.Base.{ℕ, List}
use openkernel.Keyboard.{
  Layout, layout_us, layout_uk, layout_it, layout_fr, layout_de, layout_es, layout_pt, layout_no,
  layout_dk, layout_se, layout_fi, layout_nl, layout_be, layout_pl, layout_cz, layout_sk, layout_hu,
  layout_ro, layout_tr,
}
use West.{
  scancode_ascii_lower_us, scancode_ascii_upper_us, scancode_ascii_lower_uk,
  scancode_ascii_upper_uk, scancode_ascii_lower_it, scancode_ascii_upper_it,
  scancode_ascii_lower_fr, scancode_ascii_upper_fr, scancode_ascii_lower_de,
  scancode_ascii_upper_de, scancode_ascii_lower_es, scancode_ascii_upper_es,
  scancode_ascii_lower_pt, scancode_ascii_upper_pt,
}
use North.{
  scancode_ascii_lower_no, scancode_ascii_upper_no, scancode_ascii_lower_dk,
  scancode_ascii_upper_dk, scancode_ascii_lower_se, scancode_ascii_upper_se,
  scancode_ascii_lower_fi, scancode_ascii_upper_fi, scancode_ascii_lower_nl,
  scancode_ascii_upper_nl, scancode_ascii_lower_be, scancode_ascii_upper_be,
}
use East.{
  scancode_ascii_lower_pl, scancode_ascii_upper_pl, scancode_ascii_lower_cz,
  scancode_ascii_upper_cz, scancode_ascii_lower_sk, scancode_ascii_upper_sk,
  scancode_ascii_lower_hu, scancode_ascii_upper_hu, scancode_ascii_lower_ro,
  scancode_ascii_upper_ro, scancode_ascii_lower_tr, scancode_ascii_upper_tr,
}

-- `lower_ptr` of `keyboard_scancode_to_ascii`
unfoldable pub lower_table : Layout → List ℕ
lower_table layout_us = scancode_ascii_lower_us
lower_table layout_uk = scancode_ascii_lower_uk
lower_table layout_it = scancode_ascii_lower_it
lower_table layout_fr = scancode_ascii_lower_fr
lower_table layout_de = scancode_ascii_lower_de
lower_table layout_es = scancode_ascii_lower_es
lower_table layout_pt = scancode_ascii_lower_pt
lower_table layout_no = scancode_ascii_lower_no
lower_table layout_dk = scancode_ascii_lower_dk
lower_table layout_se = scancode_ascii_lower_se
lower_table layout_fi = scancode_ascii_lower_fi
lower_table layout_nl = scancode_ascii_lower_nl
lower_table layout_be = scancode_ascii_lower_be
lower_table layout_pl = scancode_ascii_lower_pl
lower_table layout_cz = scancode_ascii_lower_cz
lower_table layout_sk = scancode_ascii_lower_sk
lower_table layout_hu = scancode_ascii_lower_hu
lower_table layout_ro = scancode_ascii_lower_ro
lower_table layout_tr = scancode_ascii_lower_tr

-- `upper_ptr` of `keyboard_scancode_to_ascii`
unfoldable pub upper_table : Layout → List ℕ
upper_table layout_us = scancode_ascii_upper_us
upper_table layout_uk = scancode_ascii_upper_uk
upper_table layout_it = scancode_ascii_upper_it
upper_table layout_fr = scancode_ascii_upper_fr
upper_table layout_de = scancode_ascii_upper_de
upper_table layout_es = scancode_ascii_upper_es
upper_table layout_pt = scancode_ascii_upper_pt
upper_table layout_no = scancode_ascii_upper_no
upper_table layout_dk = scancode_ascii_upper_dk
upper_table layout_se = scancode_ascii_upper_se
upper_table layout_fi = scancode_ascii_upper_fi
upper_table layout_nl = scancode_ascii_upper_nl
upper_table layout_be = scancode_ascii_upper_be
upper_table layout_pl = scancode_ascii_upper_pl
upper_table layout_cz = scancode_ascii_upper_cz
upper_table layout_sk = scancode_ascii_upper_sk
upper_table layout_hu = scancode_ascii_upper_hu
upper_table layout_ro = scancode_ascii_upper_ro
upper_table layout_tr = scancode_ascii_upper_tr
