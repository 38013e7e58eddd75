-- ===== src/Docs/Godocs.antt =====
-- The behaviour of the pages of zdocs/source/_static/godocs.js: contents, toggles, playgrounds, the
-- instructions for a download, and the trees of calls.
pub mod Contents
pub mod Toggles
pub mod Playground
pub mod Download
pub mod Graph
mod Tests
