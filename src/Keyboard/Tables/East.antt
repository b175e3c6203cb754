-- ===== src/Keyboard/Tables/East.antt =====
-- The Polish, Czech, Slovak, Hungarian, Romanian and Turkish tables of src/kernel/keyboard.c, ten
-- scancodes a row.
use openkernel.Base.{ℕ, List, [], ◌∷◌, ◌++◌}

abbrev pub scancode_ascii_lower_pl : List ℕ
scancode_ascii_lower_pl =
    (0 ∷ 0 ∷ b'1' ∷ b'2' ∷ b'3' ∷ b'4' ∷ b'5' ∷ b'6' ∷ b'7' ∷ b'8' ∷ [])
    ++ (b'9' ∷ b'0' ∷ b'-' ∷ b'=' ∷ 0 ∷ 0 ∷ b'q' ∷ b'w' ∷ b'e' ∷ b'r' ∷ [])
    ++ (b't' ∷ b'y' ∷ b'u' ∷ b'i' ∷ b'o' ∷ b'p' ∷ b'[' ∷ b']' ∷ b'\n' ∷ 0 ∷ [])
    ++ (b'a' ∷ b's' ∷ b'd' ∷ b'f' ∷ b'g' ∷ b'h' ∷ b'j' ∷ b'k' ∷ b'l' ∷ b';' ∷ [])
    ++ (b'\'' ∷ b'`' ∷ 0 ∷ b'\\' ∷ b'z' ∷ b'x' ∷ b'c' ∷ b'v' ∷ b'b' ∷ b'n' ∷ [])
    ++ (b'm' ∷ b',' ∷ b'.' ∷ b'/' ∷ 0 ∷ b'*' ∷ 0 ∷ b' ' ∷ 0 ∷ 0 ∷ [])

abbrev pub scancode_ascii_upper_pl : List ℕ
scancode_ascii_upper_pl =
    (0 ∷ 0 ∷ b'!' ∷ b'"' ∷ b'#' ∷ b'$' ∷ b'%' ∷ b'&' ∷ b'*' ∷ b'(' ∷ [])
    ++ (b')' ∷ b'_' ∷ b'+' ∷ b'=' ∷ 0 ∷ 0 ∷ b'Q' ∷ b'W' ∷ b'E' ∷ b'R' ∷ [])
    ++ (b'T' ∷ b'Y' ∷ b'U' ∷ b'I' ∷ b'O' ∷ b'P' ∷ b'{' ∷ b'}' ∷ b'\n' ∷ 0 ∷ [])
    ++ (b'A' ∷ b'S' ∷ b'D' ∷ b'F' ∷ b'G' ∷ b'H' ∷ b'J' ∷ b'K' ∷ b'L' ∷ b':' ∷ [])
    ++ (b'"' ∷ b'~' ∷ 0 ∷ b'|' ∷ b'Z' ∷ b'X' ∷ b'C' ∷ b'V' ∷ b'B' ∷ b'N' ∷ [])
    ++ (b'M' ∷ b'<' ∷ b'>' ∷ b'?' ∷ 0 ∷ b'*' ∷ 0 ∷ b' ' ∷ 0 ∷ 0 ∷ [])

abbrev pub scancode_ascii_lower_cz : List ℕ
scancode_ascii_lower_cz =
    (0 ∷ 0 ∷ b'+' ∷ b'1' ∷ b'2' ∷ b'3' ∷ b'4' ∷ b'5' ∷ b'6' ∷ b'7' ∷ [])
    ++ (b'8' ∷ b'9' ∷ b'0' ∷ b'=' ∷ 0 ∷ 0 ∷ b'q' ∷ b'w' ∷ b'e' ∷ b'r' ∷ [])
    ++ (b't' ∷ b'z' ∷ b'u' ∷ b'i' ∷ b'o' ∷ b'p' ∷ 139 ∷ b'(' ∷ b'\n' ∷ 0 ∷ [])
    ++ (b'a' ∷ b's' ∷ b'd' ∷ b'f' ∷ b'g' ∷ b'h' ∷ b'j' ∷ b'k' ∷ b'l' ∷ 148 ∷ [])
    ++ (151 ∷ b'#' ∷ 0 ∷ b'\'' ∷ b'y' ∷ b'x' ∷ b'c' ∷ b'v' ∷ b'b' ∷ b'n' ∷ [])
    ++ (b'm' ∷ b',' ∷ b'.' ∷ b'-' ∷ 0 ∷ b'*' ∷ 0 ∷ b' ' ∷ 0 ∷ 0 ∷ [])

abbrev pub scancode_ascii_upper_cz : List ℕ
scancode_ascii_upper_cz =
    (0 ∷ 0 ∷ b'1' ∷ b'2' ∷ b'3' ∷ b'4' ∷ b'5' ∷ b'6' ∷ b'7' ∷ b'8' ∷ [])
    ++ (b'9' ∷ b'0' ∷ b'%' ∷ b'~' ∷ 0 ∷ 0 ∷ b'Q' ∷ b'W' ∷ b'E' ∷ b'R' ∷ [])
    ++ (b'T' ∷ b'Z' ∷ b'U' ∷ b'I' ∷ b'O' ∷ b'P' ∷ b'/' ∷ b'(' ∷ b'\n' ∷ 0 ∷ [])
    ++ (b'A' ∷ b'S' ∷ b'D' ∷ b'F' ∷ b'G' ∷ b'H' ∷ b'J' ∷ b'K' ∷ b'L' ∷ b'"' ∷ [])
    ++ (b'!' ∷ b'^' ∷ 0 ∷ b')' ∷ b'Y' ∷ b'X' ∷ b'C' ∷ b'V' ∷ b'B' ∷ b'N' ∷ [])
    ++ (b'M' ∷ b'?' ∷ b':' ∷ b'_' ∷ 0 ∷ b'*' ∷ 0 ∷ b' ' ∷ 0 ∷ 0 ∷ [])

abbrev pub scancode_ascii_lower_sk : List ℕ
scancode_ascii_lower_sk =
    (0 ∷ 0 ∷ b'+' ∷ b'1' ∷ b'2' ∷ b'3' ∷ b'4' ∷ b'5' ∷ b'6' ∷ b'7' ∷ [])
    ++ (b'8' ∷ b'9' ∷ b'0' ∷ b'=' ∷ 0 ∷ 0 ∷ b'q' ∷ b'w' ∷ b'e' ∷ b'r' ∷ [])
    ++ (b't' ∷ b'z' ∷ b'u' ∷ b'i' ∷ b'o' ∷ b'p' ∷ 139 ∷ b'(' ∷ b'\n' ∷ 0 ∷ [])
    ++ (b'a' ∷ b's' ∷ b'd' ∷ b'f' ∷ b'g' ∷ b'h' ∷ b'j' ∷ b'k' ∷ b'l' ∷ 148 ∷ [])
    ++ (151 ∷ b'#' ∷ 0 ∷ b'\'' ∷ b'y' ∷ b'x' ∷ b'c' ∷ b'v' ∷ b'b' ∷ b'n' ∷ [])
    ++ (b'm' ∷ b',' ∷ b'.' ∷ b'-' ∷ 0 ∷ b'*' ∷ 0 ∷ b' ' ∷ 0 ∷ 0 ∷ [])

abbrev pub scancode_ascii_upper_sk : List ℕ
scancode_ascii_upper_sk =
    (0 ∷ 0 ∷ b'1' ∷ b'2' ∷ b'3' ∷ b'4' ∷ b'5' ∷ b'6' ∷ b'7' ∷ b'8' ∷ [])
    ++ (b'9' ∷ b'0' ∷ b'%' ∷ b'~' ∷ 0 ∷ 0 ∷ b'Q' ∷ b'W' ∷ b'E' ∷ b'R' ∷ [])
    ++ (b'T' ∷ b'Z' ∷ b'U' ∷ b'I' ∷ b'O' ∷ b'P' ∷ b'/' ∷ b'(' ∷ b'\n' ∷ 0 ∷ [])
    ++ (b'A' ∷ b'S' ∷ b'D' ∷ b'F' ∷ b'G' ∷ b'H' ∷ b'J' ∷ b'K' ∷ b'L' ∷ b'"' ∷ [])
    ++ (b'!' ∷ b'^' ∷ 0 ∷ b')' ∷ b'Y' ∷ b'X' ∷ b'C' ∷ b'V' ∷ b'B' ∷ b'N' ∷ [])
    ++ (b'M' ∷ b'?' ∷ b':' ∷ b'_' ∷ 0 ∷ b'*' ∷ 0 ∷ b' ' ∷ 0 ∷ 0 ∷ [])

abbrev pub scancode_ascii_lower_hu : List ℕ
scancode_ascii_lower_hu =
    (0 ∷ 0 ∷ b'1' ∷ b'2' ∷ b'3' ∷ b'4' ∷ b'5' ∷ b'6' ∷ b'7' ∷ b'8' ∷ [])
    ++ (b'9' ∷ b'0' ∷ 148 ∷ 154 ∷ 0 ∷ 0 ∷ b'q' ∷ b'w' ∷ b'e' ∷ b'r' ∷ [])
    ++ (b't' ∷ b'z' ∷ b'u' ∷ b'i' ∷ b'o' ∷ b'p' ∷ 148 ∷ 154 ∷ b'\n' ∷ 0 ∷ [])
    ++ (b'a' ∷ b's' ∷ b'd' ∷ b'f' ∷ b'g' ∷ b'h' ∷ b'j' ∷ b'k' ∷ b'l' ∷ 148 ∷ [])
    ++ (129 ∷ b'0' ∷ 0 ∷ 129 ∷ b'y' ∷ b'x' ∷ b'c' ∷ b'v' ∷ b'b' ∷ b'n' ∷ [])
    ++ (b'm' ∷ b',' ∷ b'.' ∷ b'-' ∷ 0 ∷ b'*' ∷ 0 ∷ b' ' ∷ 0 ∷ 0 ∷ [])

abbrev pub scancode_ascii_upper_hu : List ℕ
scancode_ascii_upper_hu =
    (0 ∷ 0 ∷ b'\'' ∷ b'"' ∷ b'+' ∷ b'!' ∷ b'%' ∷ b'/' ∷ b'=' ∷ b'(' ∷ [])
    ++ (b')' ∷ b'#' ∷ 153 ∷ 154 ∷ 0 ∷ 0 ∷ b'Q' ∷ b'W' ∷ b'E' ∷ b'R' ∷ [])
    ++ (b'T' ∷ b'Z' ∷ b'U' ∷ b'I' ∷ b'O' ∷ b'P' ∷ 153 ∷ 154 ∷ b'\n' ∷ 0 ∷ [])
    ++ (b'A' ∷ b'S' ∷ b'D' ∷ b'F' ∷ b'G' ∷ b'H' ∷ b'J' ∷ b'K' ∷ b'L' ∷ 153 ∷ [])
    ++ (154 ∷ b'$' ∷ 0 ∷ 154 ∷ b'Y' ∷ b'X' ∷ b'C' ∷ b'V' ∷ b'B' ∷ b'N' ∷ [])
    ++ (b'M' ∷ b';' ∷ b':' ∷ b'_' ∷ 0 ∷ b'*' ∷ 0 ∷ b' ' ∷ 0 ∷ 0 ∷ [])

abbrev pub scancode_ascii_lower_ro : List ℕ
scancode_ascii_lower_ro =
    (0 ∷ 0 ∷ b'1' ∷ b'2' ∷ b'3' ∷ b'4' ∷ b'5' ∷ b'6' ∷ b'7' ∷ b'8' ∷ [])
    ++ (b'9' ∷ b'0' ∷ b'-' ∷ b'=' ∷ 0 ∷ 0 ∷ b'q' ∷ b'w' ∷ b'e' ∷ b'r' ∷ [])
    ++ (b't' ∷ b'y' ∷ b'u' ∷ b'i' ∷ b'o' ∷ b'p' ∷ 131 ∷ b']' ∷ b'\n' ∷ 0 ∷ [])
    ++ (b'a' ∷ b's' ∷ b'd' ∷ b'f' ∷ b'g' ∷ b'h' ∷ b'j' ∷ b'k' ∷ b'l' ∷ 131 ∷ [])
    ++ (132 ∷ b'`' ∷ 0 ∷ b'\\' ∷ b'z' ∷ b'x' ∷ b'c' ∷ b'v' ∷ b'b' ∷ b'n' ∷ [])
    ++ (b'm' ∷ b',' ∷ b'.' ∷ b'/' ∷ 0 ∷ b'*' ∷ 0 ∷ b' ' ∷ 0 ∷ 0 ∷ [])

abbrev pub scancode_ascii_upper_ro : List ℕ
scancode_ascii_upper_ro =
    (0 ∷ 0 ∷ b'!' ∷ b'"' ∷ b'#' ∷ b'$' ∷ b'%' ∷ b'&' ∷ b'*' ∷ b'(' ∷ [])
    ++ (b')' ∷ b'_' ∷ b'+' ∷ b'=' ∷ 0 ∷ 0 ∷ b'Q' ∷ b'W' ∷ b'E' ∷ b'R' ∷ [])
    ++ (b'T' ∷ b'Y' ∷ b'U' ∷ b'I' ∷ b'O' ∷ b'P' ∷ 131 ∷ b'}' ∷ b'\n' ∷ 0 ∷ [])
    ++ (b'A' ∷ b'S' ∷ b'D' ∷ b'F' ∷ b'G' ∷ b'H' ∷ b'J' ∷ b'K' ∷ b'L' ∷ 131 ∷ [])
    ++ (142 ∷ b'~' ∷ 0 ∷ b'|' ∷ b'Z' ∷ b'X' ∷ b'C' ∷ b'V' ∷ b'B' ∷ b'N' ∷ [])
    ++ (b'M' ∷ b';' ∷ b':' ∷ b'?' ∷ 0 ∷ b'*' ∷ 0 ∷ b' ' ∷ 0 ∷ 0 ∷ [])

abbrev pub scancode_ascii_lower_tr : List ℕ
scancode_ascii_lower_tr =
    (0 ∷ 0 ∷ b'1' ∷ b'2' ∷ b'3' ∷ b'4' ∷ b'5' ∷ b'6' ∷ b'7' ∷ b'8' ∷ [])
    ++ (b'9' ∷ b'0' ∷ b'*' ∷ b'-' ∷ 0 ∷ 0 ∷ b'q' ∷ b'w' ∷ b'e' ∷ b'r' ∷ [])
    ++ (b't' ∷ b'y' ∷ b'u' ∷ b'i' ∷ b'o' ∷ b'p' ∷ 139 ∷ b'$' ∷ b'\n' ∷ 0 ∷ [])
    ++ (b'a' ∷ b's' ∷ b'd' ∷ b'f' ∷ b'g' ∷ b'h' ∷ b'j' ∷ b'k' ∷ b'l' ∷ b';' ∷ [])
    ++ (b'"' ∷ b',' ∷ 0 ∷ b'<' ∷ b'z' ∷ b'x' ∷ b'c' ∷ b'v' ∷ b'b' ∷ b'n' ∷ [])
    ++ (b'm' ∷ 148 ∷ b'c' ∷ b'.' ∷ 0 ∷ b'*' ∷ 0 ∷ b' ' ∷ 0 ∷ 0 ∷ [])

abbrev pub scancode_ascii_upper_tr : List ℕ
scancode_ascii_upper_tr =
    (0 ∷ 0 ∷ b'!' ∷ b'\'' ∷ b'^' ∷ b'+' ∷ b'%' ∷ b'&' ∷ b'/' ∷ b'(' ∷ [])
    ++ (b')' ∷ b'=' ∷ b'?' ∷ b'_' ∷ 0 ∷ 0 ∷ b'Q' ∷ b'W' ∷ b'E' ∷ b'R' ∷ [])
    ++ (b'T' ∷ b'Y' ∷ b'U' ∷ b'I' ∷ b'O' ∷ b'P' ∷ 139 ∷ b'!' ∷ b'\n' ∷ 0 ∷ [])
    ++ (b'A' ∷ b'S' ∷ b'D' ∷ b'F' ∷ b'G' ∷ b'H' ∷ b'J' ∷ b'K' ∷ b'L' ∷ b':' ∷ [])
    ++ (b'"' ∷ b'*' ∷ 0 ∷ b'>' ∷ b'Z' ∷ b'X' ∷ b'C' ∷ b'V' ∷ b'B' ∷ b'N' ∷ [])
    ++ (b'M' ∷ 153 ∷ b'C' ∷ b':' ∷ 0 ∷ b'*' ∷ 0 ∷ b' ' ∷ 0 ∷ 0 ∷ [])
