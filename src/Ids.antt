-- ===== src/Ids.antt =====
-- packages/shared/src/ids.ts: time-ordered identifiers and room codes. A text is the list of its
-- code units, an id in the making the list of its sixteen bytes. What the Web Crypto API draws is an
-- argument; a BigInt is a number.
pub mod Lex
pub mod Uuid
pub mod Order
pub mod Issued
pub mod Time
pub mod Codes
pub mod Draws
pub mod Typed
pub mod Examples
