-- ===== src/Shell/Log.antt =====
-- The log of the graphics console in src/kernel/kernel.c: a ring of 24 lines of 63 characters. The
-- count of lines is an `int` that only grows.
pub mod Last
use openkernel.Base.{
  ℕ, zero, suc, ◌^◌, Option, none, some, ◌+◌, ◌-◌, ◌%◌, List, [], ◌∷◌, ltb, ◌==◌, if◌then◌else◌,
  update, take, Text, codes,
}
use openkernel.Fs.Listing.{add}

abbrev pub gfx_log_lines : ℕ
gfx_log_lines = 24

abbrev pub gfx_log_cols : ℕ
gfx_log_cols = 64

pub record GfxLog : Type 0 where
  pub gfx_log : ℕ → Text
  pub gfx_log_count : ℕ

unfoldable pub clear_gfx_log : GfxLog → GfxLog
clear_gfx_log l = record {
  gfx_log = λ i. if ltb i gfx_log_lines then [] else l.gfx_log i;
  gfx_log_count = 0;
}

-- `none` where the count would overflow, which C leaves undefined.
unfoldable pub append_gfx_log : Text → GfxLog → Option GfxLog
append_gfx_log msg l =
    let slot = l.gfx_log_count % gfx_log_lines in
    if ltb (l.gfx_log_count + 1) (2 ^ 31)
    then some (record {
      gfx_log = update l.gfx_log slot (take (gfx_log_cols - 1) msg);
      gfx_log_count = l.gfx_log_count + 1;
    })
    else none

unfoldable pub append_gfx_prompt_line : Text → GfxLog → Option GfxLog
append_gfx_prompt_line command l = append_gfx_log (add (gfx_log_cols - 1) (codes "> ") command) l

-- The loop of `render_pseudo_text_screen` over the lines that it draws, with `k` rounds left.
unfoldable pub lines_from : ℕ → ℕ → GfxLog → List Text
lines_from zero i l = []
lines_from (suc k) i l = l.gfx_log (i % gfx_log_lines) ∷ lines_from k (i + 1) l

unfoldable pub shown_lines : GfxLog → List Text
shown_lines l =
    let lines = if ltb l.gfx_log_count gfx_log_lines then l.gfx_log_count else gfx_log_lines in
    lines_from lines (l.gfx_log_count - lines) l
