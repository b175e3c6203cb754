-- ===== src/Keyboard/Boot.antt =====
-- The layout on the boot command line.
use openkernel.Base.{◌+◌, ◌≡◌, refl, ap, ◌∙◌, false, some, [], ◌∷◌, ◌++◌, map, Text, codes}
use openkernel.Keyboard.{
  Layout, Keyboard, layout_us, layout_uk, layout_it, layout_fr, layout_de, layout_es, layout_pt,
  layout_no, layout_dk, layout_se, layout_fi, layout_nl, layout_be, layout_pl, layout_cz, layout_sk,
  layout_hu, layout_ro, layout_tr,
}
use openkernel.Keyboard.Layouts.{
  keyboard_set_layout, layout_text, kstrcmp_prefix, layout_code, detect_in, keyboard_detect_layout,
}

-- No occurrence of `layout=` begins in the text, which `after` follows.
abbrev pub Unmatched : Text → Text → Type 0
Unmatched [] after = Unit
Unmatched (c ∷ cs) after =
    (kstrcmp_prefix (c ∷ (cs ++ after)) (codes "layout=") ≡ false) × Unmatched cs after

skip-Unmatched :
    (before after : Text) (kb : Keyboard)
    → Unmatched before after
    → detect_in (before ++ after) kb ≡ detect_in after kb
unfolding detect_in
skip-Unmatched [] after kb h = refl
skip-Unmatched (c ∷ cs) after kb (h, hs) = rw (h, detect_in) (skip-Unmatched cs after kb hs)

-- The name of the layout in lower case, as the command line has it.
abbrev pub argument : Layout → Text
argument l = map (λ c. c + 32) (layout_text l)

layout_here :
    (l : Layout) (rest : Text) (kb : Keyboard)
    → (detect_in (codes "layout=" ++ argument l ++ rest) kb).current_layout ≡ l
unfolding detect_in kstrcmp_prefix layout_code keyboard_set_layout layout_text
layout_here layout_us rest kb = refl
layout_here layout_uk rest kb = refl
layout_here layout_it rest kb = refl
layout_here layout_fr rest kb = refl
layout_here layout_de rest kb = refl
layout_here layout_es rest kb = refl
layout_here layout_pt rest kb = refl
layout_here layout_no rest kb = refl
layout_here layout_dk rest kb = refl
layout_here layout_se rest kb = refl
layout_here layout_fi rest kb = refl
layout_here layout_nl rest kb = refl
layout_here layout_be rest kb = refl
layout_here layout_pl rest kb = refl
layout_here layout_cz rest kb = refl
layout_here layout_sk rest kb = refl
layout_here layout_hu rest kb = refl
layout_here layout_ro rest kb = refl
layout_here layout_tr rest kb = refl

-- `keyboard_detect_layout` finds the first `layout=` of the command line, and the name of any of the
-- layouts after it, in lower case, selects that layout whatever follows.
pub keyboard_detect_layout_lem :
    (before : Text) (l : Layout) (rest : Text) (kb : Keyboard)
    → Unmatched before (codes "layout=" ++ argument l ++ rest)
    → (keyboard_detect_layout
        (some (before ++ (codes "layout=" ++ argument l ++ rest)))
        kb).current_layout
      ≡ l
unfolding keyboard_detect_layout
keyboard_detect_layout_lem before l rest kb h =
    ap (λ k. k.current_layout) (skip-Unmatched before _ kb h) ∙ layout_here l rest kb
