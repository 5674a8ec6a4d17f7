-- ===== src/Role.antt =====
-- pkg/driver/role.go: the roles in which an instance of the driver runs.
pub mod Laws
use nexentastor_csi_driver.Common.{
  if◌then◌else◌, ◌<>◌, String, Bool, true, false, ◌||◌, List, [], ◌∷◌, ◌==◌,
}

-- `Role` is a string type; `String()` gives its text.
abbrev pub Role : Type 0
Role = String

abbrev pub role_all : Role
role_all = "all"

abbrev pub role_controller : Role
role_controller = "controller"

abbrev pub role_node : Role
role_node = "node"

-- `IsController`.
unfoldable pub is_controller : Role → Bool
is_controller r = r == role_controller || r == role_all

-- `IsNode`.
unfoldable pub is_node : Role → Bool
is_node r = r == role_node || r == role_all

-- `Roles`.
abbrev pub roles : List Role
roles = role_all ∷ role_controller ∷ role_node ∷ []

-- The text of a list of roles under `%v`.
unfoldable pub show_roles : List Role → String
show_roles [] = ""
show_roles (r ∷ []) = r
show_roles (r ∷ q ∷ rs) = r <> " " <> show_roles (q ∷ rs)

-- A role with the error, or the empty text where there is none.
pub record ParsedRole : Type 0 where
  pub role : Role
  pub failed : Bool
  pub message : String

role_error : String → String
unfolding show_roles
role_error from =
    "role '"
    <> from
    <> "' is not one of supported roles: ["
    <> show_roles roles
    <> "], default '"
    <> role_all
    <> "' will be used"

find_role : String → List Role → ParsedRole
unfolding role_error
find_role from [] = record { role = role_all; failed = true; message = role_error from }
find_role from (r ∷ rs) =
    if r == from then record { role = r; failed = false; message = "" } else find_role from rs

-- `ParseRole`.
unfoldable pub parse_role : String → ParsedRole
unfolding find_role
parse_role from = find_role from roles
