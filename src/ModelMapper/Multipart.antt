-- ===== src/ModelMapper/Multipart.antt =====
-- main.go: the model name in a multipart body, and the two phases of a request.
use gpustack_higress_plugin.Common.{
  Bytes, Bool, true, false, Option, none, some, List, [], ◌∷◌, ◌++◌, codes, eqb, not, ◌&&◌, ◌||◌, ℤ,
  if◌then◌else◌,
}
use gpustack_higress_plugin.ModelMapper.{
  MapperConfig, BodyOps, Rewrite, or_default, resolve_model, handle_json_body, is_enabled_path,
}

-- A part of the body as mime/multipart reads it; `content` is none where its reading fails.
pub record Part : Type 0 where
  pub header : Bytes
  pub form_name : Bytes
  pub file_name : Bytes
  pub content : Option Bytes

-- mime.ParseMediaType's type and boundary (`none` for an error), the parts of a body with whether it
-- ends well, and the body that a multipart.Writer makes of parts (`none` for an error).
pub record MultipartOps : Type 0 where
  pub media_type : Bytes → Option Bytes
  pub boundary : Bytes → Option Bytes
  pub read_parts : Bytes → Bytes → List Part × Bool
  pub write_parts : Bytes → List (Bytes × Bytes) → Option Bytes

-- The variables of the loop over the parts, with what was written.
pub record Scan : Type 0 where
  pub old_model : Bytes
  pub new_model : Bytes
  pub found_model : Bool
  pub out : List (Bytes × Bytes)

module _ (config : MapperConfig) where
  abbrev copied : Scan → Part → Option Bytes → Option Scan
  copied s part none = none
  copied s part (some content) = some (record s { out = s.out ++ ((part.header, content) ∷ []) })

  abbrev mapped : Scan → Part → Option Bytes → Option Scan
  mapped s part none = none
  mapped s part (some raw) =
      let new_model = or_default (resolve_model config.mappings raw) raw in
      some (record {
        old_model = raw;
        new_model = new_model;
        found_model = true;
        out = s.out ++ ((part.header, new_model) ∷ []);
      })

  -- One round; `none` leaves the body unchanged.
  unfoldable pub scan_part : Scan → Part → Option Scan
  unfolding resolve_model
  scan_part s part =
      if not s.found_model && eqb part.form_name config.model_key && eqb part.file_name []
      then mapped s part part.content
      else copied s part part.content

  abbrev pub then_scan : List Part → Option Scan → Option Scan
  then_scan parts none = none
  then_scan [] (some s) = some s
  then_scan (part ∷ rest) (some s) = then_scan rest (scan_part s part)

  abbrev rewrite_of : Scan → Option Bytes → Option Rewrite
  rewrite_of s none = none
  rewrite_of s (some body) = some (record {
    header = s.new_model;
    body = if s.found_model && not (eqb s.new_model s.old_model) then some body else none;
  })

  abbrev written_scan : MultipartOps → Bytes → Option Scan → Option Rewrite
  written_scan O boundary none = none
  written_scan O boundary (some s) = rewrite_of s (O.write_parts boundary s.out)

  abbrev scanned : MultipartOps → Bytes → List Part × Bool → Option Rewrite
  scanned O boundary (parts, false) = none
  scanned O boundary (parts, true) =
      let start : Scan = record {
        old_model = [];
        new_model = resolve_model config.mappings [];
        found_model = false;
        out = [];
      } in
      written_scan O boundary (then_scan parts (some start))

  abbrev with_boundary : MultipartOps → Bytes → Option Bytes → Option Rewrite
  with_boundary O body none = none
  with_boundary O body (some boundary) =
      if eqb boundary [] then none else scanned O boundary (O.read_parts boundary body)

  unfoldable pub handle_multipart_body : MultipartOps → Bytes → Bytes → Option Rewrite
  unfolding scan_part resolve_model
  handle_multipart_body O body content_type = with_boundary O body (O.boundary content_type)

abbrev pub mt_json : Bytes
mt_json = codes "application/json"

abbrev pub mt_multipart : Bytes
mt_multipart = codes "multipart/form-data"

abbrev or_same_type : Bytes → Option Bytes → Bytes
or_same_type content_type none = content_type
or_same_type content_type (some mt) = mt

abbrev pub base_media_type : MultipartOps → Bytes → Bytes
base_media_type O content_type = or_same_type content_type (O.media_type content_type)

-- The body is read, up to this many bytes, and the content type is kept for its phase; `none` leaves
-- the request as it is.
unfoldable pub mapper_headers :
    MultipartOps → MapperConfig → Option Bytes → Bytes → Bool → Option (ℤ × Bytes)
unfolding is_enabled_path
mapper_headers O config none content_type has_body = none
mapper_headers O config (some path) content_type has_body =
    let media_type = base_media_type O content_type in
    if not (is_enabled_path config.enable_on_path_suffix path)
      || not ((eqb media_type mt_json || eqb media_type mt_multipart) && has_body)
    then none
    else some (config.max_body_bytes, content_type)

unfoldable pub mapper_body : BodyOps → MultipartOps → MapperConfig → Bytes → Bytes → Option Rewrite
unfolding handle_json_body handle_multipart_body
mapper_body B O config [] content_type = none
mapper_body B O config (c ∷ body) content_type =
    if eqb (base_media_type O content_type) mt_multipart
    then handle_multipart_body config O (c ∷ body) content_type
    else handle_json_body B config (c ∷ body)
