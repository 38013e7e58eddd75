-- ===== src/Docs/Options.antt =====
-- docs/_static/documentation_options.js: what the page scripts are told of the build.
use g_rpeakec_go.Prelude.{Bool, true, false}
use g_rpeakec_go.Prelude.Text.{Text, codes}

pub record Options : Type 0 where
  pub url_root : Text
  pub version : Text
  pub language : Text
  pub collapse_index : Bool
  pub builder : Text
  pub file_suffix : Text
  pub link_suffix : Text
  pub has_source : Bool
  pub sourcelink_suffix : Text
  pub navigation_with_keys : Bool

-- The root is an attribute of the page.
abbrev pub documentation_options : Text → Options
documentation_options root = record {
  url_root = root;
  version = codes "0.0.10";
  language = codes "None";
  collapse_index = false;
  builder = codes "html";
  file_suffix = codes ".html";
  link_suffix = codes ".html";
  has_source = true;
  sourcelink_suffix = codes ".txt";
  navigation_with_keys = false;
}
