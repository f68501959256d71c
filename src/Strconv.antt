-- ===== src/Strconv.antt =====
-- encoding/hex, strconv and bufio, as far as the program calls them.
pub mod Hex
pub mod Atoi
pub mod Itoa
pub mod Lines
pub mod Scan
