-- ===== src/Json.antt =====
-- github.com/tidwall/gjson: what the plugins read of a parsed JSON document.
pub mod Sample
use gpustack_higress_plugin.Common.{Bytes, Bool, List}

-- A `Result` of gjson and its methods. `text` is String(), `entries` what ForEach walks of an
-- object, in the order of the document, and `items` is Array().
pub record Gjson (J : Type 0) : Type 0 where
  pub exists : J → Bool
  pub is_object : J → Bool
  pub is_array : J → Bool
  pub is_string : J → Bool
  pub get : J → Bytes → J
  pub text : J → Bytes
  pub entries : J → List (Bytes × J)
  pub keys : J → List Bytes
  pub items : J → List J
