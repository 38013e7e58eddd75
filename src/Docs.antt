-- ===== src/Docs.antt =====
-- The scripts of the documentation pages (docs/_static and zdocs/source/_static).
pub mod Doctools
pub mod Godocs
pub mod Html
pub mod Options
pub mod Regex
pub mod Search
pub mod Stemmer
pub mod Strings
pub mod Words
