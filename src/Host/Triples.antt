-- ===== src/Host/Triples.antt =====
-- What holds after an action of the host, by its answer, and the rules to prove it.
mod Base
mod Rules
pub use Base.*
pub use Rules.*
