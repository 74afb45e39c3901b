-- ===== src/Tool/Paths.antt =====
-- internal/tool/fs.go: `safePath`, over `path.Clean` and `path.Join`, and the tool that lists a
-- directory; internal/tool/http.go: the allow list of hosts.
pub mod Inside
use ai_agent_cloud_runtime.Prelude.{
  Bool, true, false, not, ◌&&◌, ◌||◌, List, [], ◌∷◌, ◌++◌, Result, ok, err, if◌then◌else◌, drop,
}
use ai_agent_cloud_runtime.Prelude.Int.{ℤ, pos, is_zero}
use ai_agent_cloud_runtime.Prelude.Text.{Text, codes, is_empty, text_eq, has_prefix}
use ai_agent_cloud_runtime.Prelude.Cuts.{split}
use ai_agent_cloud_runtime.Prelude.Substrings.{to_lower}
use ai_agent_cloud_runtime.Tool.Registry.{ToolResult, int_value, json_value}
use mathlib.Core.List.{reverse}

abbrev pub dot_dot : Text
dot_dot = codes ".."

-- What `path.Clean` keeps of the elements before "..", the last first.
unfoldable pub up : Bool → List Text → List Text
up rooted [] = if rooted then [] else dot_dot ∷ []
up rooted (s ∷ ss) = if text_eq s dot_dot then dot_dot ∷ s ∷ ss else ss

unfoldable pub push_element : Bool → List Text → Text → List Text
unfolding up
push_element rooted stack s =
    if is_empty s || text_eq s (codes ".")
    then stack
    else if text_eq s dot_dot
    then up rooted stack
    else s ∷ stack

unfoldable pub push_elements : Bool → List Text → List Text → List Text
unfolding push_element
push_elements rooted stack [] = stack
push_elements rooted stack (s ∷ ss) = push_elements rooted (push_element rooted stack s) ss

-- elements, the last first, with slashes between them
unfoldable pub path_of : List Text → Text
path_of [] = []
path_of (s ∷ []) = s
path_of (s ∷ t ∷ ss) = path_of (t ∷ ss) ++ codes "/" ++ s

abbrev pub or_dot : Text → Text
or_dot p = if is_empty p then codes "." else p

-- `path.Clean`
unfoldable pub clean : Text → Text
unfolding push_elements path_of
clean p =
    let rooted = has_prefix p (codes "/") in
    or_dot ((if rooted then codes "/" else []) ++ path_of (push_elements rooted [] (split 47 p)))

-- `path.Join` of two elements
unfoldable pub join_paths : Text → Text → Text
unfolding clean
join_paths a b =
    if is_empty a
    then (if is_empty b then [] else clean b)
    else if is_empty b
    then clean a
    else clean (a ++ codes "/" ++ b)

-- `%q` of a text that needs no escapes
abbrev quoted : Text → Text
quoted s = codes "\"" ++ s ++ codes "\""

unfoldable pub is_within : (root path : Text) → Bool
is_within root p = text_eq p root || has_prefix p (root ++ codes "/")

-- `safePath` in a sandbox whose workspace is `root`
unfoldable pub safe_path : (root path : Text) → Result Text Text
unfolding clean join_paths is_within
safe_path root p =
    if is_empty p || text_eq p (codes ".")
    then ok root
    else if has_prefix p (codes "/")
    then (if is_within root (clean p)
        then ok (clean p)
        else err (codes "path " ++ quoted p ++ codes " is outside workspace " ++ quoted root))
    else if is_within root (clean (join_paths root p))
    then ok (clean (join_paths root p))
    else err (codes "path " ++ quoted p ++ codes " escapes workspace")

pub record ExecResult : Type 0 where
  pub exit_code : ℤ
  pub stdout : Text
  pub stderr : Text

failed_result : Text → ToolResult
failed_result message = record { content = message; is_error = true; metadata = [] }

listed : Text → Result Text ExecResult → ToolResult
unfolding failed_result
listed p (err e) = failed_result e
listed p (ok res) =
    if is_zero res.exit_code
    then record {
      content = res.stdout;
      is_error = false;
      metadata = (codes "path", json_value (quoted p)) ∷ [];
    }
    else record {
      content = res.stderr;
      is_error = true;
      metadata =
          (codes "exit_code", int_value res.exit_code) ∷ (codes "path", json_value (quoted p)) ∷ [];
    }

list_in :
    {W : Type 0}
    → (List Text → W → Result Text ExecResult × W)
    → Result Text Text
    → W
    → ToolResult × W
unfolding failed_result listed
list_in exec (err e) w = (failed_result e, w)
list_in exec (ok p) w = let (r, w') = exec (codes "ls" ∷ codes "-la" ∷ p ∷ []) w in (listed p r, w')

-- `FsListTool.Invoke` on the decoded path
unfoldable pub fs_list :
    {W : Type 0}
    → (root : Text) → (List Text → W → Result Text ExecResult × W)
    → Text
    → W
    → ToolResult × W
unfolding list_in safe_path
fs_list root exec path = list_in exec (safe_path root (or_dot path))

-- `host` up to a colon
before_colon : Text → Text
before_colon [] = []
before_colon (c ∷ s) = if text_eq (c ∷ []) (codes ":") then [] else c ∷ before_colon s

matches_host : Text → Text → Bool
matches_host allowed host =
    text_eq allowed host
    || (has_prefix allowed (codes ".")
        && (text_eq host (drop 1 allowed) || has_prefix (reverse host) (reverse allowed)))

any_match : List Text → Text → Bool
unfolding matches_host
any_match [] host = false
any_match (a ∷ allow) host = matches_host (to_lower a) host || any_match allow host

-- `allowedHost`
unfoldable pub allowed_host : List Text → Text → Bool
unfolding any_match before_colon
allowed_host [] host = true
allowed_host (a ∷ allow) host = any_match (a ∷ allow) (to_lower (before_colon host))
