-- ===== src/Artifacts/Paths.antt =====
-- services/control-plane/internal/artifacts/manifest.go: which paths are safe, and the media type of
-- a path. Go's io/fs and path are written out as documented.
use Prim.Native.Char.{code}
use harness_forge.Base.{
  ℕ, String, Bool, true, false, not, ◌&&◌, ◌||◌, List, [], ◌∷◌, if◌then◌else◌, same_text, ◌==◌,
  is_some,
}
use harness_forge.Base.Tables.{exists}
use harness_forge.Base.Text.{split_path, is_absolute, cut_prefix, concat}

-- the code points of a text
abbrev code_points : String → List ℕ
code_points String.[] = []
code_points (String.◌∷◌ c s) = code c ∷ code_points s

-- strings.Contains
unfoldable pub contains_text : String → String → Bool
contains_text needle String.[] = is_some (cut_prefix needle String.[])
contains_text needle (String.◌∷◌ c s) =
    is_some (cut_prefix needle (String.◌∷◌ c s)) || contains_text needle s

-- a segment of a valid io/fs path
abbrev pub segment_valid : String → Bool
segment_valid s = not (same_text s "" || same_text s "." || same_text s "..")

abbrev pub bad_segment : String → Bool
bad_segment s = not (segment_valid s)

-- fs.ValidPath
unfoldable pub is_valid_path : String → Bool
is_valid_path name = same_text name "." || not (exists bad_segment (split_path name))

-- a ".." takes back the segment before it; above the root it does nothing
abbrev step_back : Bool → List String → List String
step_back true [] = []
step_back false [] = ".." ∷ []
step_back rooted (k ∷ ks) = if same_text k ".." then ".." ∷ k ∷ ks else ks

-- path.Clean, by segments; `kept` are the segments so far, the last one first
unfoldable clean_segments : Bool → List String → List String → List String
clean_segments rooted kept [] = kept
clean_segments rooted kept (s ∷ rest) =
    clean_segments rooted
      (if same_text s "" || same_text s "."
        then kept
        else if same_text s ".."
        then step_back rooted kept
        else s ∷ kept)
      rest

unfoldable join_segments : List String → String
unfolding concat
join_segments [] = ""
join_segments (s ∷ []) = s
join_segments (s ∷ t ∷ rest) = concat (join_segments (t ∷ rest)) (concat "/" s)

unfoldable pub clean_path : String → String
unfolding clean_segments join_segments
clean_path name =
    let kept = join_segments (clean_segments (is_absolute name) [] (split_path name)) in
    if is_absolute name then concat "/" kept else if same_text kept "" then "." else kept

-- strings.ContainsAny(value, "\\:\x00\r\n")
has_unsafe : String → Bool
has_unsafe String.[] = false
has_unsafe (String.◌∷◌ c s) =
    code c == b'\\'
    || code c == b':'
    || code c == 0
    || code c == b'\r'
    || code c == b'\n'
    || has_unsafe s

-- an escape of a dot, a slash or a backslash, in either case of its letter
unfoldable pub has_escape : String → Bool
has_escape value =
    contains_text "%2e" value
    || contains_text "%2E" value
    || contains_text "%2f" value
    || contains_text "%2F" value
    || contains_text "%5c" value
    || contains_text "%5C" value

-- ValidRelativePath
unfoldable pub valid_relative_path : String → Bool
unfolding has_unsafe
valid_relative_path value =
    not (
      not (is_valid_path value)
      || same_text value "."
      || not (same_text (clean_path value) value)
      || has_unsafe value)
    && not (has_escape value)
    && not (is_some (cut_prefix "projects/" value) && contains_text "/artifacts/" value)
