-- ===== src/Docs/Doctools.antt =====
-- docs/_static/doctools.js: the parameters of the address, translations, the browser, highlighted
-- words, and what the page does with them.
pub mod Params
pub mod Translations
pub mod Browsers
pub mod Page
pub mod Highlight
pub mod Words
pub mod Ready
mod Tests
