-- ===== src/Uris.antt =====
-- The crates `http` (`Uri`) and `url` (`Url`), as far as the proxy reads and resolves addresses. Both
-- are a parameter; the text of a parser's error is what it displays.
pub mod Known
use corx.Prelude.{Option, ◌⊎◌, Text}

pub record Uris : Type 1 where
  pub Uri : Type 0
  pub scheme_str : Uri → Option Text
  pub host : Uri → Option Text
  pub authority : Uri → Option Text
  -- `str::parse::<Uri>` and `Uri::to_string`
  pub parse : Text → Text ⊎ Uri
  pub to_string : Uri → Text
  pub Url : Type 0
  pub url_parse : Text → Text ⊎ Url
  pub join : Url → Text → Text ⊎ Url
  pub as_str : Url → Text
