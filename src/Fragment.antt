-- ===== src/Fragment.antt =====
-- internal/fragment.go: cutting a ClientHello into TLS records and TCP segments (`Split`), the
-- operations `sendRecords` makes on the connection (`Send`), and what they carry; `sendRecords` with
-- its error returns (`Direct`), and what it has done when it returns (`Returns`).
-- A slice is its value: the packets alias the caller's buffer in the source, and nothing writes to
-- it after the cut.
pub mod Split
pub mod Send
pub mod Direct
pub mod Pieces
pub mod Records
pub mod Carried
pub mod Delivery
pub mod Performs
pub mod Returns
pub mod Parsed
