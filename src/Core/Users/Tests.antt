-- ===== src/Core/Users/Tests.antt =====
-- A manifest with one user, who has one role.
use marblerun.Base.{List, Map, [], codes, ok, refl, ◌∷◌, ◌≡◌}
use marblerun.Manifest.{Certificate, ManifestUser, Role}
use marblerun.Core.Concrete.{certificate_of, concrete_services}
use marblerun.Core.Users.{assign_roles, generate_users, parse_user_certificate}
use marblerun.Core.Users.Allowed.{AreUsersOf, generate_users-AreUsersOf}
use marblerun.User.{User, new_user}

abbrev writers : Map Role
writers =
    (
      codes "writer",
      record {
        resource_type = codes "Secrets";
        resource_names = codes "key" ∷ [];
        actions = codes "WriteSecret" ∷ [];
      },
    )
    ∷ []

abbrev one_user : Map ManifestUser
one_user = (codes "bob", record { certificate = 7 ∷ []; roles = codes "writer" ∷ [] }) ∷ []

abbrev bob_alone : List (User Certificate)
bob_alone =
    assign_roles writers (codes "writer" ∷ []) (new_user (codes "bob") (certificate_of (7 ∷ [])))
    ∷ []

generated : generate_users concrete_services one_user writers ≡ ok bob_alone
unfolding generate_users parse_user_certificate
generated = refl

generate_users-AreUsersOf_example : AreUsersOf writers one_user bob_alone
generate_users-AreUsersOf_example =
    generate_users-AreUsersOf concrete_services one_user writers bob_alone generated
