-- ===== src/Common/Paths.antt =====
-- `filepath.Clean`, `filepath.Join` and `filepath.Dir`, on Unix.
use Prim.Native.Char.{code}
use Prim.Native.String.{String}
use mathlib.Core.Bool.{Bool, true, false, ◌||◌}
use mathlib.Core.List.{List, [], ◌∷◌, reverse}
use text.Mathlib.Text.{◌==◌}
use package.nexentastor_csi_driver.Common.Flow.{if◌then◌else◌, nat_eq}
use package.nexentastor_csi_driver.Common.Text.{◌<>◌, ◌∷ᶜ◌, split, join, has_prefix, is_empty}

-- A ".." removes the element before it, if that can be removed. The top of the stack is its head.
step_up : Bool → List String → List String
step_up rooted [] = if rooted then [] else ".." ∷ []
step_up rooted (top ∷ stack) = if top == ".." then ".." ∷ top ∷ stack else stack

resolve_part : Bool → List String → String → List String
unfolding step_up
resolve_part rooted stack part =
    if part == "" || part == "."
    then stack
    else if part == ".."
    then step_up rooted stack
    else part ∷ stack

resolve_parts : Bool → List String → List String → List String
unfolding resolve_part
resolve_parts rooted stack [] = reverse stack
resolve_parts rooted stack (part ∷ parts) =
    resolve_parts rooted (resolve_part rooted stack part) parts

or_dot : String → String
or_dot String.[] = "."
or_dot (String.◌∷◌ c s) = c ∷ᶜ s

-- `filepath.Clean`.
unfoldable pub clean : String → String
unfolding resolve_parts or_dot split join has_prefix
clean s =
    if has_prefix s "/"
    then "/" <> join "/" (resolve_parts true [] (split "/" s))
    else or_dot (join "/" (resolve_parts false [] (split "/" s)))

-- `filepath.Join` of two elements: empty ones are left out.
unfoldable pub path_join : String → String → String
unfolding clean
path_join a b =
    if is_empty a
    then (if is_empty b then "" else clean b)
    else if is_empty b
    then clean a
    else clean (a <> "/" <> b)

-- The text up to its last slash, the slash included.
up_to_slash : String → String
up_to_slash String.[] = ""
up_to_slash (String.◌∷◌ c s) =
    let rest = up_to_slash s in
    if is_empty rest then (if nat_eq (code c) b'/' then "/" else "") else (c ∷ᶜ rest)

-- `filepath.Dir`.
unfoldable pub path_dir : String → String
unfolding clean up_to_slash
path_dir path = clean (up_to_slash path)

has_dot_or_slash : String → Bool
has_dot_or_slash String.[] = false
has_dot_or_slash (String.◌∷◌ c s) =
    nat_eq (code c) b'.' || nat_eq (code c) b'/' || has_dot_or_slash s

-- The text from its last dot on, if no slash comes behind that dot, with the dot.
from_last_dot : String → String
unfolding has_dot_or_slash
from_last_dot String.[] = ""
from_last_dot (String.◌∷◌ c s) =
    let rest = from_last_dot s in
    if has_dot_or_slash s then rest else if nat_eq (code c) b'.' then (c ∷ᶜ s) else ""

-- `filepath.Ext`.
unfoldable pub path_ext : String → String
unfolding from_last_dot
path_ext path = from_last_dot path
