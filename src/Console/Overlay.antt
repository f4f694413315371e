-- ===== src/Console/Overlay.antt =====
-- internal/console/overlay.go: the script that the proxy injects. The file and its digest are arguments.
use dsh_fleet.Base.{not, ◌&&◌, [], ◌∷◌, ◌++◌, Option, none, some, if◌then◌else◌, Bytes, codes, same}
use dsh_fleet.Base64.{encode_to_string, raw_url_encoding}
use dsh_fleet.Strings.{contains}
use dsh_fleet.Audit.Trail.{take}
use dsh_fleet.Console.Reply.{path_overlay}

-- OverlayScript
unfoldable pub overlay_script : Bytes
overlay_script = codes "<script src=\"" ++ path_overlay ++ codes "\" defer></script>"

-- overlayETag
unfoldable pub overlay_etag : (Bytes → Bytes) → Bytes → Bytes
unfolding encode_to_string take
overlay_etag sum256 body =
    b'"' ∷ encode_to_string raw_url_encoding (take 12 (sum256 body)) ++ b'"' ∷ []

-- Overlay: `none` is 304, otherwise the whole file
unfoldable pub overlay : (Bytes → Bytes) → Bytes → Bytes → Option Bytes
unfolding overlay_etag contains
overlay sum256 body if_none_match =
    if not (same if_none_match []) && contains if_none_match (overlay_etag sum256 body)
    then none
    else some body
