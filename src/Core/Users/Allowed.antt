-- ===== src/Core/Users/Allowed.antt =====
-- What the users of a manifest may do, as their roles say it.
use marblerun.Base.{
  Bool, List, Map, Result, Str, [], arith, deadlock, err, false, get, ok, panic, refl, str_eq,
  subst, to_lower, ◌&&◌, ◌||◌, ◌∙◌, ◌∷◌, ◌≡◌,
}
use marblerun.Manifest.{Certificate, ManifestUser, Role}
use marblerun.Services.{Services}
use marblerun.User.{User, assign, new_permission, new_user}
use marblerun.Core.Users.{
  assign_actions, assign_roles, generate_users, role_of, parse_user_certificate,
}
use marblerun.Base.Pure.{◌>>=◌}
use marblerun.User.Grants.{allows, allows-assign, assign-IsKeyed, new_user-IsKeyed, IsKeyed, mem}

-- Whether one of the actions is the named one, in lower case.
abbrev pub has_action : List Str → Str → Bool
has_action [] id = false
has_action (a ∷ actions) id = str_eq (to_lower a) id || has_action actions id

-- Whether one of the roles has the action on the resource.
abbrev pub roles_allow : Map Role → List Str → Str → Str → Bool
roles_allow roles [] id r = false
roles_allow roles (name ∷ names) id r =
    (has_action (role_of roles name).actions id && mem r (role_of roles name).resource_names)
    || roles_allow roles names id r

-- The user has the name, and is allowed what the roles allow.
pub record IsUserOf (roles : Map Role) (name : Str) (user : ManifestUser) (u : User Certificate)
    : Type 0 where
  pub named : u.name ≡ name
  pub keyed : IsKeyed u
  pub allowed : (id r : Str) → allows u id r ≡ roles_allow roles user.roles id r

-- The users are those of the manifest, in its order.
abbrev pub AreUsersOf : Map Role → Map ManifestUser → List (User Certificate) → Type 0
AreUsersOf roles [] [] = Unit {0}
AreUsersOf roles [] (u ∷ us) = ⊥
AreUsersOf roles ((name, user) ∷ users) [] = ⊥
AreUsersOf roles ((name, user) ∷ users) (u ∷ us) =
    IsUserOf roles name user u × AreUsersOf roles users us

allows-assign_actions :
    (resources actions : List Str) (u : User Certificate) (id r : Str)
    → allows (assign_actions resources actions u) id r
      ≡ (allows u id r || (has_action actions id && mem r resources))
unfolding assign_actions
allows-assign_actions resources [] u id r = ground arith
allows-assign_actions resources (a ∷ actions) u id r =
    let next = assign u (new_permission (to_lower a) resources) in
    let rest = allows-assign_actions resources actions next id r in
    let first = allows-assign u (to_lower a) resources id r in
    rest
    ∙ rw first (
        distribute (allows u id r) (str_eq (to_lower a) id) (mem r resources)
          (has_action actions id))
  where
    distribute : (a b c d : Bool) → ((a || (b && c)) || (d && c)) ≡ (a || ((b || d) && c))
    distribute a b c d = ground arith

allows-assign_roles :
    (roles : Map Role) (names : List Str) (u : User Certificate) (id r : Str)
    → allows (assign_roles roles names u) id r ≡ (allows u id r || roles_allow roles names id r)
unfolding assign_roles
allows-assign_roles roles [] u id r = ground arith
allows-assign_roles roles (name ∷ names) u id r =
    let role = role_of roles name in
    let next = assign_actions role.resource_names role.actions u in
    allows-assign_roles roles names next id r
    ∙ rw (allows-assign_actions role.resource_names role.actions u id r) (
        associate (allows u id r) (has_action role.actions id && mem r role.resource_names)
          (roles_allow roles names id r))
  where
    associate : (a b c : Bool) → ((a || b) || c) ≡ (a || (b || c))
    associate a b c = ground arith

assign_actions_kept :
    (resources actions : List Str) (u : User Certificate)
    → IsKeyed u
    → IsKeyed (assign_actions resources actions u)
      × ((assign_actions resources actions u).name ≡ u.name)
unfolding assign_actions assign
assign_actions_kept resources [] u k = (k, refl)
assign_actions_kept resources (a ∷ actions) u k =
    let p = new_permission (to_lower a) resources in
    assign_actions_kept resources actions (assign u p) (assign-IsKeyed u p k)

assign_roles_kept :
    (roles : Map Role) (names : List Str) (u : User Certificate)
    → IsKeyed u
    → IsKeyed (assign_roles roles names u) × ((assign_roles roles names u).name ≡ u.name)
unfolding assign_roles
assign_roles_kept roles [] u k = (k, refl)
assign_roles_kept roles (name ∷ names) u k =
    let role = role_of roles name in
    let first = assign_actions_kept role.resource_names role.actions u k in
    let next = assign_actions role.resource_names role.actions u in
    let rest = assign_roles_kept roles names next first.0 in (rest.0, rest.1 ∙ first.1)

new_user_allows :
    (roles : Map Role) (name : Str) (cert : Certificate) (user : ManifestUser)
    → IsUserOf roles name user (assign_roles roles user.roles (new_user name cert))
unfolding new_user get
new_user_allows roles name cert user =
    let both =
      assign_roles_kept roles user.roles (new_user name cert) (new_user-IsKeyed name cert) in
    record {
      named = both.1;
      keyed = both.0;
      allowed = λ id r. allows-assign_roles roles user.roles (new_user name cert) id r;
    }

-- If the users of a manifest are generated, they are those of the manifest in its order, and each is
-- allowed an action on a resource exactly when one of his roles has both.
pub generate_users-AreUsersOf :
    (ext : Services) (users : Map ManifestUser) (roles : Map Role) (us : List (User Certificate))
    → generate_users ext users roles ≡ ok us
    → AreUsersOf roles users us
unfolding generate_users
generate_users-AreUsersOf ext [] roles [] e = tt
generate_users-AreUsersOf ext [] roles (u ∷ us) e = cc
generate_users-AreUsersOf ext ((name, user) ∷ users) roles us e =
    go (parse_user_certificate ext name user.certificate) (generate_users ext users roles)
      (λ more f. generate_users-AreUsersOf ext users roles more f) e
  where
    go :
        (c : Result Certificate) (rest : Result (List (User Certificate)))
        → ((more : List (User Certificate)) → rest ≡ ok more → AreUsersOf roles users more)
        → (do cert ← c; more ← rest; ok (assign_roles roles user.roles (new_user name cert) ∷ more))
          ≡ ok us
        → AreUsersOf roles ((name, user) ∷ users) us
    go (ok cert) (ok more) f h =
        let same : assign_roles roles user.roles (new_user name cert) ∷ more ≡ us = cc in
        subst (AreUsersOf roles ((name, user) ∷ users)) same
          (new_user_allows roles name cert user, f more refl)
    go (ok cert) (err x) f h = cc
    go (ok cert) (panic x) f h = cc
    go (ok cert) deadlock f h = cc
    go (err x) rest f h = cc
    go (panic x) rest f h = cc
    go deadlock rest f h = cc
