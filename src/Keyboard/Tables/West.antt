-- ===== src/Keyboard/Tables/West.antt =====
-- The American, British, Italian, French, German, Spanish and Portuguese tables of src/kernel/keyboard.c, ten
-- scancodes a row.
use openkernel.Base.{ℕ, List, [], ◌∷◌, ◌++◌}

abbrev pub scancode_ascii_lower_us : List ℕ
scancode_ascii_lower_us =
    (0 ∷ 0 ∷ b'1' ∷ b'2' ∷ b'3' ∷ b'4' ∷ b'5' ∷ b'6' ∷ b'7' ∷ b'8' ∷ [])
    ++ (b'9' ∷ b'0' ∷ b'-' ∷ b'=' ∷ 0 ∷ 0 ∷ b'q' ∷ b'w' ∷ b'e' ∷ b'r' ∷ [])
    ++ (b't' ∷ b'y' ∷ b'u' ∷ b'i' ∷ b'o' ∷ b'p' ∷ b'[' ∷ b']' ∷ b'\n' ∷ 0 ∷ [])
    ++ (b'a' ∷ b's' ∷ b'd' ∷ b'f' ∷ b'g' ∷ b'h' ∷ b'j' ∷ b'k' ∷ b'l' ∷ b';' ∷ [])
    ++ (b'\'' ∷ b'`' ∷ 0 ∷ b'\\' ∷ b'z' ∷ b'x' ∷ b'c' ∷ b'v' ∷ b'b' ∷ b'n' ∷ [])
    ++ (b'm' ∷ b',' ∷ b'.' ∷ b'/' ∷ 0 ∷ b'*' ∷ 0 ∷ b' ' ∷ 0 ∷ 0 ∷ [])

abbrev pub scancode_ascii_upper_us : List ℕ
scancode_ascii_upper_us =
    (0 ∷ 0 ∷ b'!' ∷ b'@' ∷ b'#' ∷ b'$' ∷ b'%' ∷ b'^' ∷ b'&' ∷ b'*' ∷ [])
    ++ (b'(' ∷ b')' ∷ b'_' ∷ b'+' ∷ 0 ∷ 0 ∷ b'Q' ∷ b'W' ∷ b'E' ∷ b'R' ∷ [])
    ++ (b'T' ∷ b'Y' ∷ b'U' ∷ b'I' ∷ b'O' ∷ b'P' ∷ b'{' ∷ b'}' ∷ b'\n' ∷ 0 ∷ [])
    ++ (b'A' ∷ b'S' ∷ b'D' ∷ b'F' ∷ b'G' ∷ b'H' ∷ b'J' ∷ b'K' ∷ b'L' ∷ b':' ∷ [])
    ++ (b'"' ∷ b'~' ∷ 0 ∷ b'|' ∷ b'Z' ∷ b'X' ∷ b'C' ∷ b'V' ∷ b'B' ∷ b'N' ∷ [])
    ++ (b'M' ∷ b'<' ∷ b'>' ∷ b'?' ∷ 0 ∷ b'*' ∷ 0 ∷ b' ' ∷ 0 ∷ 0 ∷ [])

abbrev pub scancode_ascii_lower_uk : List ℕ
scancode_ascii_lower_uk =
    (0 ∷ 0 ∷ b'1' ∷ b'2' ∷ b'3' ∷ b'4' ∷ b'5' ∷ b'6' ∷ b'7' ∷ b'8' ∷ [])
    ++ (b'9' ∷ b'0' ∷ b'-' ∷ b'=' ∷ 0 ∷ 0 ∷ b'q' ∷ b'w' ∷ b'e' ∷ b'r' ∷ [])
    ++ (b't' ∷ b'y' ∷ b'u' ∷ b'i' ∷ b'o' ∷ b'p' ∷ b'[' ∷ b']' ∷ b'\n' ∷ 0 ∷ [])
    ++ (b'a' ∷ b's' ∷ b'd' ∷ b'f' ∷ b'g' ∷ b'h' ∷ b'j' ∷ b'k' ∷ b'l' ∷ b';' ∷ [])
    ++ (b'\'' ∷ b'`' ∷ 0 ∷ b'#' ∷ b'z' ∷ b'x' ∷ b'c' ∷ b'v' ∷ b'b' ∷ b'n' ∷ [])
    ++ (b'm' ∷ b',' ∷ b'.' ∷ b'/' ∷ 0 ∷ b'*' ∷ 0 ∷ b' ' ∷ 0 ∷ 0 ∷ [])

abbrev pub scancode_ascii_upper_uk : List ℕ
scancode_ascii_upper_uk =
    (0 ∷ 0 ∷ b'!' ∷ b'"' ∷ 163 ∷ b'$' ∷ b'%' ∷ b'^' ∷ b'&' ∷ b'*' ∷ [])
    ++ (b'(' ∷ b')' ∷ b'_' ∷ b'+' ∷ 0 ∷ 0 ∷ b'Q' ∷ b'W' ∷ b'E' ∷ b'R' ∷ [])
    ++ (b'T' ∷ b'Y' ∷ b'U' ∷ b'I' ∷ b'O' ∷ b'P' ∷ b'{' ∷ b'}' ∷ b'\n' ∷ 0 ∷ [])
    ++ (b'A' ∷ b'S' ∷ b'D' ∷ b'F' ∷ b'G' ∷ b'H' ∷ b'J' ∷ b'K' ∷ b'L' ∷ b':' ∷ [])
    ++ (b'@' ∷ b'~' ∷ 0 ∷ b'~' ∷ b'Z' ∷ b'X' ∷ b'C' ∷ b'V' ∷ b'B' ∷ b'N' ∷ [])
    ++ (b'M' ∷ b'<' ∷ b'>' ∷ b'?' ∷ 0 ∷ b'*' ∷ 0 ∷ b' ' ∷ 0 ∷ 0 ∷ [])

abbrev pub scancode_ascii_lower_it : List ℕ
scancode_ascii_lower_it =
    (0 ∷ 0 ∷ b'1' ∷ b'2' ∷ b'3' ∷ b'4' ∷ b'5' ∷ b'6' ∷ b'7' ∷ b'8' ∷ [])
    ++ (b'9' ∷ b'0' ∷ b'\'' ∷ b'i' ∷ 0 ∷ 0 ∷ b'q' ∷ b'w' ∷ b'e' ∷ b'r' ∷ [])
    ++ (b't' ∷ b'y' ∷ b'u' ∷ b'i' ∷ b'o' ∷ b'p' ∷ b'e' ∷ b'+' ∷ b'\n' ∷ 0 ∷ [])
    ++ (b'a' ∷ b's' ∷ b'd' ∷ b'f' ∷ b'g' ∷ b'h' ∷ b'j' ∷ b'k' ∷ b'l' ∷ b'o' ∷ [])
    ++ (b'a' ∷ b'\\' ∷ 0 ∷ b'u' ∷ b'z' ∷ b'x' ∷ b'c' ∷ b'v' ∷ b'b' ∷ b'n' ∷ [])
    ++ (b'm' ∷ b',' ∷ b'.' ∷ b'-' ∷ 0 ∷ b'*' ∷ 0 ∷ b' ' ∷ 0 ∷ 0 ∷ [])

abbrev pub scancode_ascii_upper_it : List ℕ
scancode_ascii_upper_it =
    (0 ∷ 0 ∷ b'!' ∷ b'"' ∷ b'#' ∷ b'$' ∷ b'%' ∷ b'&' ∷ b'/' ∷ b'(' ∷ [])
    ++ (b')' ∷ b'=' ∷ b'?' ∷ b'^' ∷ 0 ∷ 0 ∷ b'Q' ∷ b'W' ∷ b'E' ∷ b'R' ∷ [])
    ++ (b'T' ∷ b'Y' ∷ b'U' ∷ b'I' ∷ b'O' ∷ b'P' ∷ b'E' ∷ b'*' ∷ b'\n' ∷ 0 ∷ [])
    ++ (b'A' ∷ b'S' ∷ b'D' ∷ b'F' ∷ b'G' ∷ b'H' ∷ b'J' ∷ b'K' ∷ b'L' ∷ b'C' ∷ [])
    ++ (b'O' ∷ b'|' ∷ 0 ∷ b'S' ∷ b'Z' ∷ b'X' ∷ b'C' ∷ b'V' ∷ b'B' ∷ b'N' ∷ [])
    ++ (b'M' ∷ b';' ∷ b':' ∷ b'_' ∷ 0 ∷ b'*' ∷ 0 ∷ b' ' ∷ 0 ∷ 0 ∷ [])

abbrev pub scancode_ascii_lower_fr : List ℕ
scancode_ascii_lower_fr =
    (0 ∷ 0 ∷ b'&' ∷ 130 ∷ b'"' ∷ b'\'' ∷ b'(' ∷ b'-' ∷ 138 ∷ b'_' ∷ [])
    ++ (135 ∷ 133 ∷ b')' ∷ b'=' ∷ 0 ∷ 0 ∷ b'a' ∷ b'z' ∷ b'e' ∷ b'r' ∷ [])
    ++ (b't' ∷ b'y' ∷ b'u' ∷ b'i' ∷ b'o' ∷ b'p' ∷ b'^' ∷ b'$' ∷ b'\n' ∷ 0 ∷ [])
    ++ (b'q' ∷ b's' ∷ b'd' ∷ b'f' ∷ b'g' ∷ b'h' ∷ b'j' ∷ b'k' ∷ b'l' ∷ b'm' ∷ [])
    ++ (151 ∷ b'^' ∷ 0 ∷ b'*' ∷ b'w' ∷ b'x' ∷ b'c' ∷ b'v' ∷ b'b' ∷ b'n' ∷ [])
    ++ (b',' ∷ b';' ∷ b':' ∷ b'!' ∷ 0 ∷ b'*' ∷ 0 ∷ b' ' ∷ 0 ∷ 0 ∷ [])

abbrev pub scancode_ascii_upper_fr : List ℕ
scancode_ascii_upper_fr =
    (0 ∷ 0 ∷ b'1' ∷ b'2' ∷ b'3' ∷ b'4' ∷ b'5' ∷ b'6' ∷ b'7' ∷ b'8' ∷ [])
    ++ (b'9' ∷ b'0' ∷ 176 ∷ b'+' ∷ 0 ∷ 0 ∷ b'A' ∷ b'Z' ∷ b'E' ∷ b'R' ∷ [])
    ++ (b'T' ∷ b'Y' ∷ b'U' ∷ b'I' ∷ b'O' ∷ b'P' ∷ 168 ∷ 163 ∷ b'\n' ∷ 0 ∷ [])
    ++ (b'Q' ∷ b'S' ∷ b'D' ∷ b'F' ∷ b'G' ∷ b'H' ∷ b'J' ∷ b'K' ∷ b'L' ∷ b'M' ∷ [])
    ++ (151 ∷ 168 ∷ 0 ∷ 0 ∷ b'W' ∷ b'X' ∷ b'C' ∷ b'V' ∷ b'B' ∷ b'N' ∷ [])
    ++ (b'?' ∷ b'.' ∷ b'/' ∷ b'#' ∷ 0 ∷ b'*' ∷ 0 ∷ b' ' ∷ 0 ∷ 0 ∷ [])

abbrev pub scancode_ascii_lower_de : List ℕ
scancode_ascii_lower_de =
    (0 ∷ 0 ∷ b'1' ∷ b'2' ∷ b'3' ∷ b'4' ∷ b'5' ∷ b'6' ∷ b'7' ∷ b'8' ∷ [])
    ++ (b'9' ∷ b'0' ∷ 225 ∷ b'\'' ∷ 0 ∷ 0 ∷ b'q' ∷ b'w' ∷ b'e' ∷ b'r' ∷ [])
    ++ (b't' ∷ b'z' ∷ b'u' ∷ b'i' ∷ b'o' ∷ b'p' ∷ 129 ∷ b'+' ∷ b'\n' ∷ 0 ∷ [])
    ++ (b'a' ∷ b's' ∷ b'd' ∷ b'f' ∷ b'g' ∷ b'h' ∷ b'j' ∷ b'k' ∷ b'l' ∷ 148 ∷ [])
    ++ (132 ∷ b'^' ∷ 0 ∷ b'#' ∷ b'y' ∷ b'x' ∷ b'c' ∷ b'v' ∷ b'b' ∷ b'n' ∷ [])
    ++ (b'm' ∷ b',' ∷ b'.' ∷ b'-' ∷ 0 ∷ b'*' ∷ 0 ∷ b' ' ∷ 0 ∷ 0 ∷ [])

abbrev pub scancode_ascii_upper_de : List ℕ
scancode_ascii_upper_de =
    (0 ∷ 0 ∷ b'!' ∷ b'"' ∷ b'#' ∷ b'$' ∷ b'%' ∷ b'&' ∷ b'/' ∷ b'(' ∷ [])
    ++ (b')' ∷ b'=' ∷ b'?' ∷ b'`' ∷ 0 ∷ 0 ∷ b'Q' ∷ b'W' ∷ b'E' ∷ b'R' ∷ [])
    ++ (b'T' ∷ b'Z' ∷ b'U' ∷ b'I' ∷ b'O' ∷ b'P' ∷ 154 ∷ b'*' ∷ b'\n' ∷ 0 ∷ [])
    ++ (b'A' ∷ b'S' ∷ b'D' ∷ b'F' ∷ b'G' ∷ b'H' ∷ b'J' ∷ b'K' ∷ b'L' ∷ 153 ∷ [])
    ++ (142 ∷ b'^' ∷ 0 ∷ b'\'' ∷ b'Y' ∷ b'X' ∷ b'C' ∷ b'V' ∷ b'B' ∷ b'N' ∷ [])
    ++ (b'M' ∷ b';' ∷ b':' ∷ b'_' ∷ 0 ∷ b'*' ∷ 0 ∷ b' ' ∷ 0 ∷ 0 ∷ [])

abbrev pub scancode_ascii_lower_es : List ℕ
scancode_ascii_lower_es =
    (0 ∷ 0 ∷ b'1' ∷ b'2' ∷ b'3' ∷ b'4' ∷ b'5' ∷ b'6' ∷ b'7' ∷ b'8' ∷ [])
    ++ (b'9' ∷ b'0' ∷ b'\'' ∷ 173 ∷ 0 ∷ 0 ∷ b'q' ∷ b'w' ∷ b'e' ∷ b'r' ∷ [])
    ++ (b't' ∷ b'y' ∷ b'u' ∷ b'i' ∷ b'o' ∷ b'p' ∷ b'`' ∷ b'+' ∷ b'\n' ∷ 0 ∷ [])
    ++ (b'a' ∷ b's' ∷ b'd' ∷ b'f' ∷ b'g' ∷ b'h' ∷ b'j' ∷ b'k' ∷ b'l' ∷ 164 ∷ [])
    ++ (160 ∷ 176 ∷ 0 ∷ 135 ∷ b'z' ∷ b'x' ∷ b'c' ∷ b'v' ∷ b'b' ∷ b'n' ∷ [])
    ++ (b'm' ∷ b',' ∷ b'.' ∷ b'-' ∷ 0 ∷ b'*' ∷ 0 ∷ b' ' ∷ 0 ∷ 0 ∷ [])

abbrev pub scancode_ascii_upper_es : List ℕ
scancode_ascii_upper_es =
    (0 ∷ 0 ∷ b'!' ∷ b'"' ∷ 167 ∷ b'$' ∷ b'%' ∷ b'&' ∷ b'/' ∷ b'(' ∷ [])
    ++ (b')' ∷ b'=' ∷ b'?' ∷ 168 ∷ 0 ∷ 0 ∷ b'Q' ∷ b'W' ∷ b'E' ∷ b'R' ∷ [])
    ++ (b'T' ∷ b'Y' ∷ b'U' ∷ b'I' ∷ b'O' ∷ b'P' ∷ b'^' ∷ b'*' ∷ b'\n' ∷ 0 ∷ [])
    ++ (b'A' ∷ b'S' ∷ b'D' ∷ b'F' ∷ b'G' ∷ b'H' ∷ b'J' ∷ b'K' ∷ b'L' ∷ 165 ∷ [])
    ++ (162 ∷ 167 ∷ 0 ∷ 128 ∷ b'Z' ∷ b'X' ∷ b'C' ∷ b'V' ∷ b'B' ∷ b'N' ∷ [])
    ++ (b'M' ∷ b';' ∷ b':' ∷ b'_' ∷ 0 ∷ b'*' ∷ 0 ∷ b' ' ∷ 0 ∷ 0 ∷ [])

abbrev pub scancode_ascii_lower_pt : List ℕ
scancode_ascii_lower_pt =
    (0 ∷ 0 ∷ b'1' ∷ b'2' ∷ b'3' ∷ b'4' ∷ b'5' ∷ b'6' ∷ b'7' ∷ b'8' ∷ [])
    ++ (b'9' ∷ b'0' ∷ b'\'' ∷ 174 ∷ 0 ∷ 0 ∷ b'q' ∷ b'w' ∷ b'e' ∷ b'r' ∷ [])
    ++ (b't' ∷ b'y' ∷ b'u' ∷ b'i' ∷ b'o' ∷ b'p' ∷ b'+' ∷ b'\'' ∷ b'\n' ∷ 0 ∷ [])
    ++ (b'a' ∷ b's' ∷ b'd' ∷ b'f' ∷ b'g' ∷ b'h' ∷ b'j' ∷ b'k' ∷ b'l' ∷ 135 ∷ [])
    ++ (176 ∷ 170 ∷ 0 ∷ b'~' ∷ b'z' ∷ b'x' ∷ b'c' ∷ b'v' ∷ b'b' ∷ b'n' ∷ [])
    ++ (b'm' ∷ b',' ∷ b'.' ∷ b'-' ∷ 0 ∷ b'*' ∷ 0 ∷ b' ' ∷ 0 ∷ 0 ∷ [])

abbrev pub scancode_ascii_upper_pt : List ℕ
scancode_ascii_upper_pt =
    (0 ∷ 0 ∷ b'!' ∷ b'"' ∷ b'#' ∷ b'$' ∷ b'%' ∷ b'&' ∷ b'/' ∷ b'(' ∷ [])
    ++ (b')' ∷ b'=' ∷ b'?' ∷ 175 ∷ 0 ∷ 0 ∷ b'Q' ∷ b'W' ∷ b'E' ∷ b'R' ∷ [])
    ++ (b'T' ∷ b'Y' ∷ b'U' ∷ b'I' ∷ b'O' ∷ b'P' ∷ b'*' ∷ b'?' ∷ b'\n' ∷ 0 ∷ [])
    ++ (b'A' ∷ b'S' ∷ b'D' ∷ b'F' ∷ b'G' ∷ b'H' ∷ b'J' ∷ b'K' ∷ b'L' ∷ 135 ∷ [])
    ++ (b'^' ∷ 167 ∷ 0 ∷ b'^' ∷ b'Z' ∷ b'X' ∷ b'C' ∷ b'V' ∷ b'B' ∷ b'N' ∷ [])
    ++ (b'M' ∷ b';' ∷ b':' ∷ b'_' ∷ 0 ∷ b'*' ∷ 0 ∷ b' ' ∷ 0 ∷ 0 ∷ [])
