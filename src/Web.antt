-- ===== src/Web.antt =====
-- The instruction builders of the web application: src/models/lending and src/utils/layout.ts.
pub mod Layout
pub mod Builders
pub mod Decode
pub mod Hex
pub mod Numbers
pub mod Agreement
pub mod Provider
pub mod RoundTrip
