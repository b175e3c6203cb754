-- ===== src/Keyboard/Tables/North.antt =====
-- The Norwegian, Danish, Swedish, Finnish, Dutch and Belgian tables of src/kernel/keyboard.c, ten
-- scancodes a row.
use openkernel.Base.{ℕ, List, [], ◌∷◌, ◌++◌}

abbrev pub scancode_ascii_lower_no : List ℕ
scancode_ascii_lower_no =
    (0 ∷ 0 ∷ b'1' ∷ b'2' ∷ b'3' ∷ b'4' ∷ b'5' ∷ b'6' ∷ b'7' ∷ b'8' ∷ [])
    ++ (b'9' ∷ b'0' ∷ b'+' ∷ b'\\' ∷ 0 ∷ 0 ∷ b'q' ∷ b'w' ∷ b'e' ∷ b'r' ∷ [])
    ++ (b't' ∷ b'y' ∷ b'u' ∷ b'i' ∷ b'o' ∷ b'p' ∷ 134 ∷ b'^' ∷ b'\n' ∷ 0 ∷ [])
    ++ (b'a' ∷ b's' ∷ b'd' ∷ b'f' ∷ b'g' ∷ b'h' ∷ b'j' ∷ b'k' ∷ b'l' ∷ 148 ∷ [])
    ++ (132 ∷ b'\'' ∷ 0 ∷ b'*' ∷ b'z' ∷ b'x' ∷ b'c' ∷ b'v' ∷ b'b' ∷ b'n' ∷ [])
    ++ (b'm' ∷ b',' ∷ b'.' ∷ b'-' ∷ 0 ∷ b'*' ∷ 0 ∷ b' ' ∷ 0 ∷ 0 ∷ [])

abbrev pub scancode_ascii_upper_no : List ℕ
scancode_ascii_upper_no =
    (0 ∷ 0 ∷ b'!' ∷ b'"' ∷ b'#' ∷ b'$' ∷ b'%' ∷ b'&' ∷ b'/' ∷ b'(' ∷ [])
    ++ (b')' ∷ b'=' ∷ b'?' ∷ b'`' ∷ 0 ∷ 0 ∷ b'Q' ∷ b'W' ∷ b'E' ∷ b'R' ∷ [])
    ++ (b'T' ∷ b'Y' ∷ b'U' ∷ b'I' ∷ b'O' ∷ b'P' ∷ 143 ∷ b'^' ∷ b'\n' ∷ 0 ∷ [])
    ++ (b'A' ∷ b'S' ∷ b'D' ∷ b'F' ∷ b'G' ∷ b'H' ∷ b'J' ∷ b'K' ∷ b'L' ∷ 153 ∷ [])
    ++ (142 ∷ b'*' ∷ 0 ∷ b'*' ∷ b'Z' ∷ b'X' ∷ b'C' ∷ b'V' ∷ b'B' ∷ b'N' ∷ [])
    ++ (b'M' ∷ b';' ∷ b':' ∷ b'_' ∷ 0 ∷ b'*' ∷ 0 ∷ b' ' ∷ 0 ∷ 0 ∷ [])

abbrev pub scancode_ascii_lower_dk : List ℕ
scancode_ascii_lower_dk =
    (0 ∷ 0 ∷ b'1' ∷ b'2' ∷ b'3' ∷ b'4' ∷ b'5' ∷ b'6' ∷ b'7' ∷ b'8' ∷ [])
    ++ (b'9' ∷ b'0' ∷ b'+' ∷ b'\\' ∷ 0 ∷ 0 ∷ b'q' ∷ b'w' ∷ b'e' ∷ b'r' ∷ [])
    ++ (b't' ∷ b'y' ∷ b'u' ∷ b'i' ∷ b'o' ∷ b'p' ∷ 134 ∷ b'^' ∷ b'\n' ∷ 0 ∷ [])
    ++ (b'a' ∷ b's' ∷ b'd' ∷ b'f' ∷ b'g' ∷ b'h' ∷ b'j' ∷ b'k' ∷ b'l' ∷ 132 ∷ [])
    ++ (148 ∷ b'\'' ∷ 0 ∷ b'*' ∷ b'z' ∷ b'x' ∷ b'c' ∷ b'v' ∷ b'b' ∷ b'n' ∷ [])
    ++ (b'm' ∷ b',' ∷ b'.' ∷ b'-' ∷ 0 ∷ b'*' ∷ 0 ∷ b' ' ∷ 0 ∷ 0 ∷ [])

abbrev pub scancode_ascii_upper_dk : List ℕ
scancode_ascii_upper_dk =
    (0 ∷ 0 ∷ b'!' ∷ b'"' ∷ b'#' ∷ b'$' ∷ b'%' ∷ b'&' ∷ b'/' ∷ b'(' ∷ [])
    ++ (b')' ∷ b'=' ∷ b'?' ∷ b'`' ∷ 0 ∷ 0 ∷ b'Q' ∷ b'W' ∷ b'E' ∷ b'R' ∷ [])
    ++ (b'T' ∷ b'Y' ∷ b'U' ∷ b'I' ∷ b'O' ∷ b'P' ∷ 143 ∷ b'^' ∷ b'\n' ∷ 0 ∷ [])
    ++ (b'A' ∷ b'S' ∷ b'D' ∷ b'F' ∷ b'G' ∷ b'H' ∷ b'J' ∷ b'K' ∷ b'L' ∷ 142 ∷ [])
    ++ (153 ∷ b'*' ∷ 0 ∷ b'*' ∷ b'Z' ∷ b'X' ∷ b'C' ∷ b'V' ∷ b'B' ∷ b'N' ∷ [])
    ++ (b'M' ∷ b';' ∷ b':' ∷ b'_' ∷ 0 ∷ b'*' ∷ 0 ∷ b' ' ∷ 0 ∷ 0 ∷ [])

abbrev pub scancode_ascii_lower_se : List ℕ
scancode_ascii_lower_se =
    (0 ∷ 0 ∷ b'1' ∷ b'2' ∷ b'3' ∷ b'4' ∷ b'5' ∷ b'6' ∷ b'7' ∷ b'8' ∷ [])
    ++ (b'9' ∷ b'0' ∷ b'+' ∷ b'\'' ∷ 0 ∷ 0 ∷ b'q' ∷ b'w' ∷ b'e' ∷ b'r' ∷ [])
    ++ (b't' ∷ b'y' ∷ b'u' ∷ b'i' ∷ b'o' ∷ b'p' ∷ 134 ∷ b'^' ∷ b'\n' ∷ 0 ∷ [])
    ++ (b'a' ∷ b's' ∷ b'd' ∷ b'f' ∷ b'g' ∷ b'h' ∷ b'j' ∷ b'k' ∷ b'l' ∷ 148 ∷ [])
    ++ (132 ∷ b'\'' ∷ 0 ∷ b'*' ∷ b'z' ∷ b'x' ∷ b'c' ∷ b'v' ∷ b'b' ∷ b'n' ∷ [])
    ++ (b'm' ∷ b',' ∷ b'.' ∷ b'-' ∷ 0 ∷ b'*' ∷ 0 ∷ b' ' ∷ 0 ∷ 0 ∷ [])

abbrev pub scancode_ascii_upper_se : List ℕ
scancode_ascii_upper_se =
    (0 ∷ 0 ∷ b'!' ∷ b'"' ∷ b'#' ∷ b'$' ∷ b'%' ∷ b'&' ∷ b'/' ∷ b'(' ∷ [])
    ++ (b')' ∷ b'=' ∷ b'?' ∷ b'`' ∷ 0 ∷ 0 ∷ b'Q' ∷ b'W' ∷ b'E' ∷ b'R' ∷ [])
    ++ (b'T' ∷ b'Y' ∷ b'U' ∷ b'I' ∷ b'O' ∷ b'P' ∷ 143 ∷ b'^' ∷ b'\n' ∷ 0 ∷ [])
    ++ (b'A' ∷ b'S' ∷ b'D' ∷ b'F' ∷ b'G' ∷ b'H' ∷ b'J' ∷ b'K' ∷ b'L' ∷ 153 ∷ [])
    ++ (142 ∷ b'*' ∷ 0 ∷ b'*' ∷ b'Z' ∷ b'X' ∷ b'C' ∷ b'V' ∷ b'B' ∷ b'N' ∷ [])
    ++ (b'M' ∷ b';' ∷ b':' ∷ b'_' ∷ 0 ∷ b'*' ∷ 0 ∷ b' ' ∷ 0 ∷ 0 ∷ [])

abbrev pub scancode_ascii_lower_fi : List ℕ
scancode_ascii_lower_fi =
    (0 ∷ 0 ∷ b'1' ∷ b'2' ∷ b'3' ∷ b'4' ∷ b'5' ∷ b'6' ∷ b'7' ∷ b'8' ∷ [])
    ++ (b'9' ∷ b'0' ∷ b'+' ∷ b'\'' ∷ 0 ∷ 0 ∷ b'q' ∷ b'w' ∷ b'e' ∷ b'r' ∷ [])
    ++ (b't' ∷ b'y' ∷ b'u' ∷ b'i' ∷ b'o' ∷ b'p' ∷ 134 ∷ b'^' ∷ b'\n' ∷ 0 ∷ [])
    ++ (b'a' ∷ b's' ∷ b'd' ∷ b'f' ∷ b'g' ∷ b'h' ∷ b'j' ∷ b'k' ∷ b'l' ∷ 148 ∷ [])
    ++ (132 ∷ b'\'' ∷ 0 ∷ b'*' ∷ b'z' ∷ b'x' ∷ b'c' ∷ b'v' ∷ b'b' ∷ b'n' ∷ [])
    ++ (b'm' ∷ b',' ∷ b'.' ∷ b'-' ∷ 0 ∷ b'*' ∷ 0 ∷ b' ' ∷ 0 ∷ 0 ∷ [])

abbrev pub scancode_ascii_upper_fi : List ℕ
scancode_ascii_upper_fi =
    (0 ∷ 0 ∷ b'!' ∷ b'"' ∷ b'#' ∷ b'$' ∷ b'%' ∷ b'&' ∷ b'/' ∷ b'(' ∷ [])
    ++ (b')' ∷ b'=' ∷ b'?' ∷ b'`' ∷ 0 ∷ 0 ∷ b'Q' ∷ b'W' ∷ b'E' ∷ b'R' ∷ [])
    ++ (b'T' ∷ b'Y' ∷ b'U' ∷ b'I' ∷ b'O' ∷ b'P' ∷ 143 ∷ b'^' ∷ b'\n' ∷ 0 ∷ [])
    ++ (b'A' ∷ b'S' ∷ b'D' ∷ b'F' ∷ b'G' ∷ b'H' ∷ b'J' ∷ b'K' ∷ b'L' ∷ 153 ∷ [])
    ++ (142 ∷ b'*' ∷ 0 ∷ b'*' ∷ b'Z' ∷ b'X' ∷ b'C' ∷ b'V' ∷ b'B' ∷ b'N' ∷ [])
    ++ (b'M' ∷ b';' ∷ b':' ∷ b'_' ∷ 0 ∷ b'*' ∷ 0 ∷ b' ' ∷ 0 ∷ 0 ∷ [])

abbrev pub scancode_ascii_lower_nl : List ℕ
scancode_ascii_lower_nl =
    (0 ∷ 0 ∷ b'1' ∷ b'2' ∷ b'3' ∷ b'4' ∷ b'5' ∷ b'6' ∷ b'7' ∷ b'8' ∷ [])
    ++ (b'9' ∷ b'0' ∷ b'-' ∷ b'=' ∷ 0 ∷ 0 ∷ b'q' ∷ b'w' ∷ b'e' ∷ b'r' ∷ [])
    ++ (b't' ∷ b'y' ∷ b'u' ∷ b'i' ∷ b'o' ∷ b'p' ∷ b'[' ∷ b']' ∷ b'\n' ∷ 0 ∷ [])
    ++ (b'a' ∷ b's' ∷ b'd' ∷ b'f' ∷ b'g' ∷ b'h' ∷ b'j' ∷ b'k' ∷ b'l' ∷ b';' ∷ [])
    ++ (b'\'' ∷ b'`' ∷ 0 ∷ b'\\' ∷ b'z' ∷ b'x' ∷ b'c' ∷ b'v' ∷ b'b' ∷ b'n' ∷ [])
    ++ (b'm' ∷ b',' ∷ b'.' ∷ b'/' ∷ 0 ∷ b'*' ∷ 0 ∷ b' ' ∷ 0 ∷ 0 ∷ [])

abbrev pub scancode_ascii_upper_nl : List ℕ
scancode_ascii_upper_nl =
    (0 ∷ 0 ∷ b'!' ∷ b'"' ∷ b'#' ∷ b'$' ∷ b'%' ∷ b'&' ∷ b'*' ∷ b'(' ∷ [])
    ++ (b')' ∷ b'_' ∷ b'+' ∷ b'=' ∷ 0 ∷ 0 ∷ b'Q' ∷ b'W' ∷ b'E' ∷ b'R' ∷ [])
    ++ (b'T' ∷ b'Y' ∷ b'U' ∷ b'I' ∷ b'O' ∷ b'P' ∷ b'{' ∷ b'}' ∷ b'\n' ∷ 0 ∷ [])
    ++ (b'A' ∷ b'S' ∷ b'D' ∷ b'F' ∷ b'G' ∷ b'H' ∷ b'J' ∷ b'K' ∷ b'L' ∷ b':' ∷ [])
    ++ (b'"' ∷ b'~' ∷ 0 ∷ b'|' ∷ b'Z' ∷ b'X' ∷ b'C' ∷ b'V' ∷ b'B' ∷ b'N' ∷ [])
    ++ (b'M' ∷ b'<' ∷ b'>' ∷ b'?' ∷ 0 ∷ b'*' ∷ 0 ∷ b' ' ∷ 0 ∷ 0 ∷ [])

abbrev pub scancode_ascii_lower_be : List ℕ
scancode_ascii_lower_be =
    (0 ∷ 0 ∷ b'&' ∷ 130 ∷ b'"' ∷ b'\'' ∷ b'(' ∷ b'#' ∷ 138 ∷ b'!' ∷ [])
    ++ (135 ∷ 133 ∷ b')' ∷ b'-' ∷ 0 ∷ 0 ∷ b'a' ∷ b'z' ∷ b'e' ∷ b'r' ∷ [])
    ++ (b't' ∷ b'y' ∷ b'u' ∷ b'i' ∷ b'o' ∷ b'p' ∷ b'^' ∷ b'$' ∷ b'\n' ∷ 0 ∷ [])
    ++ (b'q' ∷ b's' ∷ b'd' ∷ b'f' ∷ b'g' ∷ b'h' ∷ b'j' ∷ b'k' ∷ b'l' ∷ b'm' ∷ [])
    ++ (151 ∷ b'`' ∷ 0 ∷ 163 ∷ b'w' ∷ b'x' ∷ b'c' ∷ b'v' ∷ b'b' ∷ b'n' ∷ [])
    ++ (b',' ∷ b';' ∷ b':' ∷ b'=' ∷ 0 ∷ b'*' ∷ 0 ∷ b' ' ∷ 0 ∷ 0 ∷ [])

abbrev pub scancode_ascii_upper_be : List ℕ
scancode_ascii_upper_be =
    (0 ∷ 0 ∷ b'1' ∷ b'2' ∷ b'3' ∷ b'4' ∷ b'5' ∷ b'6' ∷ b'7' ∷ b'8' ∷ [])
    ++ (b'9' ∷ b'0' ∷ b'^' ∷ b'+' ∷ 0 ∷ 0 ∷ b'A' ∷ b'Z' ∷ b'E' ∷ b'R' ∷ [])
    ++ (b'T' ∷ b'Y' ∷ b'U' ∷ b'I' ∷ b'O' ∷ b'P' ∷ 168 ∷ b'*' ∷ b'\n' ∷ 0 ∷ [])
    ++ (b'Q' ∷ b'S' ∷ b'D' ∷ b'F' ∷ b'G' ∷ b'H' ∷ b'J' ∷ b'K' ∷ b'L' ∷ b'M' ∷ [])
    ++ (b'%' ∷ b'~' ∷ 0 ∷ b'|' ∷ b'W' ∷ b'X' ∷ b'C' ∷ b'V' ∷ b'B' ∷ b'N' ∷ [])
    ++ (b'?' ∷ b'.' ∷ b'/' ∷ b'+' ∷ 0 ∷ b'*' ∷ 0 ∷ b' ' ∷ 0 ∷ 0 ∷ [])
