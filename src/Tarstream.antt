-- ===== src/Tarstream.antt =====
-- internal/tarstream/tarstream.go: the numbers, the headers and the PAX records of archives.
pub mod Numerals
pub mod Text
pub mod Fields
pub mod Sizes
pub mod FieldsBack
pub mod Pax
pub mod PaxSize
pub mod PaxBack
pub mod PaxRead
pub mod PaxRoundTrip
pub mod PaxSound
pub mod Encode
pub mod EncodeBack
pub mod Header
pub mod HeaderFields
pub mod Slices
pub mod HeaderParts
pub mod Layout
pub mod HeaderBack
