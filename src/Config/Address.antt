-- ===== src/Config/Address.antt =====
-- `regexpAddress` of pkg/config/config.go, ^https?://[^:]+:[0-9]{1,5}$.
use Prim.Native.String.{count}
use nexentastor_csi_driver.Common.{
  if◌then◌else◌, leb, nat_eq, split, is_empty, code, String, Bool, true, false, not, ◌&&◌, ◌||◌,
  Option, none, some, List, [], ◌∷◌,
}

-- The text behind a prefix.
unfoldable pub drop_prefix : String → String → Option String
drop_prefix String.[] s = some s
drop_prefix (String.◌∷◌ c t) String.[] = none
drop_prefix (String.◌∷◌ c t) (String.◌∷◌ d s) =
    let rest = drop_prefix t s in if nat_eq (code c) (code d) then rest else none

all_digits : String → Bool
all_digits String.[] = true
all_digits (String.◌∷◌ c s) = leb b'0' (code c) && leb (code c) b'9' && all_digits s

-- [0-9]{1,5}
is_port : String → Bool
unfolding all_digits
is_port s = all_digits s && leb 1 (count s) && leb (count s) 5

-- [^:]+:[0-9]{1,5}
is_host_port : List String → Bool
unfolding is_port
is_host_port (host ∷ port ∷ []) = not (is_empty host) && is_port port
is_host_port _ = false

match_host_port : Option String → Bool
unfolding is_host_port split
match_host_port none = false
match_host_port (some s) = is_host_port (split ":" s)

-- `regexpAddress.MatchString`. The two schemes exclude one another.
unfoldable pub match_address : String → Bool
unfolding match_host_port drop_prefix
match_address s =
    match_host_port (drop_prefix "http://" s) || match_host_port (drop_prefix "https://" s)
