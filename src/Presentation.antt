-- ===== src/Presentation.antt =====
-- internal/presentation: what may be written to a terminal. A text is cut by runes, as []rune does.
pub mod Format
pub mod Frame
pub mod Bounds
pub mod Cuts
pub mod Labels
pub mod Errors
pub mod Examples
pub mod Mode
pub mod Layout
