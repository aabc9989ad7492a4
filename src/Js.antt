-- ===== src/Js.antt =====
-- What the code uses of the browser and of JavaScript's library.
pub mod Numbers
pub mod Collections
pub mod Sort
pub mod Thousandths
pub mod Text
pub mod Order
pub mod PlainFormat
pub mod PlainLocale
pub mod Format
