-- ===== src/Core/Users.antt =====
-- generateUsersFromManifest of coordinator/core/core.go.
pub mod Allowed
pub mod Tests
use marblerun.Base.{List, Map, Result, Str, [], err, errorf, get, none, ok, some, to_lower, ◌∷◌}
use marblerun.Manifest.{Certificate, ManifestUser, Role}
use marblerun.User.{User, assign, new_permission, new_user}
use marblerun.Base.Pure.{◌>>=◌}
use marblerun.Services.{Services}

-- roles[name] of a map: a missing role has no actions
abbrev pub role_of : Map Role → Str → Role
role_of roles name = elim (get roles name) [
  | none ↦ record { resource_type = []; resource_names = []; actions = [] }
  | some role ↦ role
]

-- the loop over the actions of a role
unfoldable pub assign_actions : List Str → List Str → User Certificate → User Certificate
assign_actions resources [] u = u
assign_actions resources (action ∷ actions) u =
    assign_actions resources actions (assign u (new_permission (to_lower action) resources))

-- the loop over the roles of a user
unfoldable pub assign_roles : Map Role → List Str → User Certificate → User Certificate
unfolding assign_actions
assign_roles roles [] u = u
assign_roles roles (name ∷ names) u =
    let role = role_of roles name in
    assign_roles roles names (assign_actions role.resource_names role.actions u)

module _ (ext : Services) where
  -- the certificate of a user
  unfoldable pub parse_user_certificate : Str → Str → Result Certificate
  parse_user_certificate name certificate = elim (ext.pem_decode certificate) [
    | none ↦ err (errorf "received invalid certificate for user %s" (name ∷ []))
    | some block ↦ ext.parse_certificate block
  ]

  -- generateUsersFromManifest
  unfoldable pub generate_users : Map ManifestUser → Map Role → Result (List (User Certificate))
  unfolding parse_user_certificate assign_roles
  generate_users [] roles = ok []
  generate_users ((name, user) ∷ users) roles = do
    cert ← parse_user_certificate name user.certificate
    rest ← generate_users users roles
    ok (assign_roles roles user.roles (new_user name cert) ∷ rest)
