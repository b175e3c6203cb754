-- ===== src/Keyboard/Layouts.antt =====
-- The choice of a layout in src/kernel/keyboard.c: by number, and from the boot command line.
use openkernel.Base.{
  ℕ, Bool, true, false, Option, none, some, List, [], ◌∷◌, ◌==◌, if◌then◌else◌, get_elem?, drop,
  Text, codes,
}
use openkernel.Keyboard.{
  Layout, Keyboard, layout_us, layout_uk, layout_it, layout_fr, layout_de, layout_es, layout_pt,
  layout_no, layout_dk, layout_se, layout_fi, layout_nl, layout_be, layout_pl, layout_cz, layout_sk,
  layout_hu, layout_ro, layout_tr,
}

-- the values of `layout_t`, in the order of the enumeration
abbrev pub layouts : List Layout
layouts =
    layout_us ∷ layout_uk ∷ layout_it ∷ layout_fr ∷ layout_de ∷ layout_es ∷ layout_pt ∷ layout_no
    ∷ layout_dk ∷ layout_se ∷ layout_fi ∷ layout_nl ∷ layout_be ∷ layout_pl ∷ layout_cz ∷ layout_sk
    ∷ layout_hu ∷ layout_ro ∷ layout_tr ∷ []

-- The `int` of the caller, where a negative one is `none`.
unfoldable pub keyboard_set_layout : Option ℕ → Keyboard → Keyboard
keyboard_set_layout none kb = kb
keyboard_set_layout (some layout) kb = elim (get_elem? layouts layout) [
  | none ↦ kb
  | some l ↦ record kb { current_layout = l }
]

unfoldable pub layout_text : Layout → Text
layout_text layout_us = codes "US"
layout_text layout_uk = codes "UK"
layout_text layout_it = codes "IT"
layout_text layout_fr = codes "FR"
layout_text layout_de = codes "DE"
layout_text layout_es = codes "ES"
layout_text layout_pt = codes "PT"
layout_text layout_no = codes "NO"
layout_text layout_dk = codes "DK"
layout_text layout_se = codes "SE"
layout_text layout_fi = codes "FI"
layout_text layout_nl = codes "NL"
layout_text layout_be = codes "BE"
layout_text layout_pl = codes "PL"
layout_text layout_cz = codes "CZ"
layout_text layout_sk = codes "SK"
layout_text layout_hu = codes "HU"
layout_text layout_ro = codes "RO"
layout_text layout_tr = codes "TR"

unfoldable pub keyboard_layout_name : Option ℕ → Text
keyboard_layout_name none = codes "?"
keyboard_layout_name (some layout) = elim (get_elem? layouts layout) [
  | none ↦ codes "?"
  | some l ↦ layout_text l
]

unfoldable pub kstrcmp_prefix : Text → Text → Bool
kstrcmp_prefix str [] = true
kstrcmp_prefix [] (c ∷ prefix) = false
kstrcmp_prefix (d ∷ str) (c ∷ prefix) = if d == c then kstrcmp_prefix str prefix else false

-- the two letters of each layout, in the order in which they are tried
unfoldable pub layout_code : Text → Option ℕ
layout_code p =
    if kstrcmp_prefix p (codes "us")
    then some 0
    else if kstrcmp_prefix p (codes "uk")
    then some 1
    else if kstrcmp_prefix p (codes "it")
    then some 2
    else if kstrcmp_prefix p (codes "fr")
    then some 3
    else if kstrcmp_prefix p (codes "de")
    then some 4
    else if kstrcmp_prefix p (codes "es")
    then some 5
    else if kstrcmp_prefix p (codes "pt")
    then some 6
    else if kstrcmp_prefix p (codes "no")
    then some 7
    else if kstrcmp_prefix p (codes "dk")
    then some 8
    else if kstrcmp_prefix p (codes "se")
    then some 9
    else if kstrcmp_prefix p (codes "fi")
    then some 10
    else if kstrcmp_prefix p (codes "nl")
    then some 11
    else if kstrcmp_prefix p (codes "be")
    then some 12
    else if kstrcmp_prefix p (codes "pl")
    then some 13
    else if kstrcmp_prefix p (codes "cz")
    then some 14
    else if kstrcmp_prefix p (codes "sk")
    then some 15
    else if kstrcmp_prefix p (codes "hu")
    then some 16
    else if kstrcmp_prefix p (codes "ro")
    then some 17
    else if kstrcmp_prefix p (codes "tr")
    then some 18
    else none

unfoldable pub detect_in : Text → Keyboard → Keyboard
detect_in [] kb = kb
detect_in (c ∷ cs) kb =
    let rest = detect_in cs kb in
    if kstrcmp_prefix (c ∷ cs) (codes "layout=")
    then elim (layout_code (drop 7 (c ∷ cs))) [
      | none ↦ kb
      | some l ↦ keyboard_set_layout (some l) kb
    ]
    else rest

-- `none` is a NULL command line.
unfoldable pub keyboard_detect_layout : Option Text → Keyboard → Keyboard
keyboard_detect_layout none kb = kb
keyboard_detect_layout (some cmdline) kb = detect_in cmdline kb
