-- ===== src/Artifacts/Media.antt =====
-- services/control-plane/internal/artifacts/manifest.go: ContentType.
use Prim.Native.Char.{code}
use harness_forge.Base.{
  ℕ, ◌+◌, String, Bool, true, false, not, ◌&&◌, ◌||◌, if◌then◌else◌, leb, ◌==◌,
}

-- no dot and no slash
plain_rest : String → Bool
plain_rest String.[] = true
plain_rest (String.◌∷◌ c s) = not (code c == b'.' || code c == b'/') && plain_rest s

-- path.Ext
unfoldable pub path_ext : String → String
unfolding plain_rest
path_ext String.[] = String.[]
path_ext (String.◌∷◌ c s) =
    let later = path_ext s in if code c == b'.' && plain_rest s then String.◌∷◌ c s else later

-- unicode.ToLower, where it gives an ASCII character: the Kelvin sign and the dotted I do too
lower : ℕ → ℕ
lower c =
    if leb b'A' c && leb c b'Z'
    then c + 32
    else if c == 0x212a
    then b'k'
    else if c == 0x130
    then b'i'
    else c

-- strings.ToLower(ext) == name, for a name in lower case
unfoldable pub lowers_to : String → String → Bool
unfolding lower
lowers_to String.[] String.[] = true
lowers_to (String.◌∷◌ c s) (String.◌∷◌ d t) = lower (code c) == code d && lowers_to s t
lowers_to _ _ = false

-- ContentType
unfoldable pub content_type : String → String
content_type name =
    let ext = path_ext name in
    if lowers_to ext ".html" || lowers_to ext ".htm"
    then "text/html; charset=utf-8"
    else if lowers_to ext ".js" || lowers_to ext ".mjs"
    then "text/javascript; charset=utf-8"
    else if lowers_to ext ".css"
    then "text/css; charset=utf-8"
    else if lowers_to ext ".json"
    then "application/json"
    else if lowers_to ext ".png"
    then "image/png"
    else if lowers_to ext ".jpg" || lowers_to ext ".jpeg"
    then "image/jpeg"
    else if lowers_to ext ".gif"
    then "image/gif"
    else if lowers_to ext ".svg"
    then "image/svg+xml"
    else if lowers_to ext ".webp"
    then "image/webp"
    else if lowers_to ext ".ico"
    then "image/vnd.microsoft.icon"
    else if lowers_to ext ".avif"
    then "image/avif"
    else if lowers_to ext ".bmp"
    then "image/bmp"
    else if lowers_to ext ".tif" || lowers_to ext ".tiff"
    then "image/tiff"
    else "application/octet-stream"
