-- ===== src/Encoding.antt =====
-- What the code uses of Go's encoding/hex, encoding/base64, strconv and strings, over byte lists.
pub mod Hex
pub mod Base64
pub mod Base64url
pub mod Text
pub mod Decimal
