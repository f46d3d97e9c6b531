-- ===== src/Manifest/Check/Roles.antt =====
-- What a role is that Check accepts.
use marblerun.Base.{
  All, Bool, Error, List, Map, Option, Str, [], arith, codes, false, get, has, if◌then◌else◌, none,
  ok, refl, some, str_eq, str_eq_iff, to_lower, true, ◌||◌, ◌↔◌, ◌∷◌, ◌≡◌, ◌⊎◌, Result, deadlock,
  err, panic, subst,
}
use marblerun.Manifest.{Manifest, Role, Secret}
use marblerun.Manifest.Check.{
  check_package_action, check_package_role, check_role, check_role_secret, check_secret_role,
  defined, secret_actions,
}
use marblerun.Manifest.Loops.{for_each_iff, for_each}
use marblerun.User.{read_secret, update_package, write_secret}
use marblerun.Base.Pure.{both_iff}

abbrev pub Defined : {V : Type 0} → Map V → Str → Type 0
Defined m name = has m name ≡ true

pub defined_iff :
    {V : Type 0} (m : Map V) (e : Error) (name : Str) → (defined m e name ≡ ok tt) ↔ Defined m name
unfolding defined
defined_iff m e name = ground arith

-- Some action of the list is `name` up to case.
abbrev pub mentions : Str → List Str → Bool
mentions name [] = false
mentions name (a ∷ rest) = str_eq (to_lower a) name || mentions name rest

-- What the flags of a role ask of a secret.
abbrev pub MayGrant : Bool → Bool → Secret → Type 0
MayGrant write_role read_role s =
    (write_role ≡ true → s.user_defined ≡ true)
    × (read_role ≡ true → (s.shared ≡ true) ⊎ (s.user_defined ≡ true))

abbrev pub Grantable : Manifest → Bool × Bool → Str → Type 0
Grantable m flags name = (s : Secret) × (get m.secrets name ≡ some s) × MayGrant flags.0 flags.1 s

-- A secret that a role names exists; writing wants a user-defined one, reading one that is shared
-- or user-defined.
abbrev pub SecretIsGrantable : Manifest → List Str → Str → Type 0
SecretIsGrantable m actions =
    Grantable m ((mentions write_secret actions), (mentions read_secret actions))

abbrev pub IsSecretAction : Str → Type 0
IsSecretAction a = (to_lower a ≡ write_secret) ⊎ (to_lower a ≡ read_secret)

-- A role is about packages or about secrets, with the actions that exist for these.
abbrev pub RoleIsSound : Manifest → Str × Role → Type 0
RoleIsSound m (name, role) =
    ((role.resource_type ≡ codes "Packages")
      × All (Defined m.packages) role.resource_names
      × All (λ a. to_lower a ≡ update_package) role.actions)
    ⊎ ((role.resource_type ≡ codes "Secrets")
        × All IsSecretAction role.actions
        × All (SecretIsGrantable m role.actions) role.resource_names)

secret_actions-eq-ok :
    (role : Str) (actions : List Str) (w r : Bool) (f : Bool × Bool)
    → secret_actions role actions w r ≡ ok f
    → All IsSecretAction actions
      × (f ≡ ((w || mentions write_secret actions), (r || mentions read_secret actions)))
unfolding secret_actions
secret_actions-eq-ok role [] w r f h = (tt, ground arith)
secret_actions-eq-ok role (a ∷ rest) w r f h =
    let writes = str_eq (to_lower a) write_secret in
    let reads = str_eq (to_lower a) read_secret in
    ground (
      arith,
      str_eq_iff (to_lower a) write_secret,
      str_eq_iff (to_lower a) read_secret,
      secret_actions-eq-ok role rest (if writes then true else w) (if reads then true else r) f,
    )

secret_actions-known :
    (role : Str) (actions : List Str) (w r : Bool)
    → All IsSecretAction actions
    → secret_actions role actions w r
      ≡ ok ((w || mentions write_secret actions), (r || mentions read_secret actions))
unfolding secret_actions
secret_actions-known role [] w r h = ground arith
secret_actions-known role (a ∷ rest) w r h =
    let writes = str_eq (to_lower a) write_secret in
    let reads = str_eq (to_lower a) read_secret in
    ground (
      arith,
      str_eq_iff (to_lower a) write_secret,
      str_eq_iff (to_lower a) read_secret,
      secret_actions-known role rest (if writes then true else w) (if reads then true else r) h.1,
    )

check_role_secret_iff :
    (role : Str) (w r : Bool) (name : Str) (o : Option Secret)
    → (check_role_secret role w r name o ≡ ok tt) ↔ ((s : Secret) × (o ≡ some s) × MayGrant w r s)
unfolding check_role_secret
check_role_secret_iff role w r name none = ((λ h. cc), (λ (s, e, g). cc))
check_role_secret_iff role w r name (some s) =
    ((λ h. (s, refl, ground arith)), (λ (t, e, g). ground arith))

check_package_role_iff :
    (m : Manifest) (name : Str) (role : Role)
    → (check_package_role m name role ≡ ok tt) ↔ (
        All (Defined m.packages) role.resource_names
        × All (λ a. to_lower a ≡ update_package) role.actions)
unfolding check_package_role check_package_action
check_package_role_iff m name role =
    both_iff _ _
      (for_each_iff _ (Defined m.packages) role.resource_names (λ r. defined_iff m.packages _ r))
      (for_each_iff _ (λ a. to_lower a ≡ update_package) role.actions
        (λ a. ground (arith, str_eq_iff (to_lower a) update_package)))

-- the loop over the secrets of a role, for given flags
role_secrets_iff :
    (m : Manifest) (name : Str) (names : List Str) (f : Bool × Bool)
    → (for_each (λ s. check_role_secret name f.0 f.1 s (get m.secrets s)) names ≡ ok tt)
      ↔ All (Grantable m f) names
role_secrets_iff m name names f =
    for_each_iff _ (Grantable m f) names
      (λ s. check_role_secret_iff name f.0 f.1 s (get m.secrets s))

check_secret_role_sound :
    (m : Manifest) (name : Str) (role : Role) (r : Result (Bool × Bool))
    → secret_actions name role.actions false false ≡ r
    → check_secret_role m name role ≡ ok tt
    → All IsSecretAction role.actions × All (SecretIsGrantable m role.actions) role.resource_names
unfolding check_secret_role
check_secret_role_sound m name role (ok f) e h =
    let (known, flags) = secret_actions-eq-ok name role.actions false false f e in
    let loop = (role_secrets_iff m name role.resource_names f).0 (rw e at h) in
    (known, subst (λ g. All (Grantable m g) role.resource_names) flags loop)
check_secret_role_sound m name role (err x) e h = ground arith
check_secret_role_sound m name role (panic x) e h = ground arith
check_secret_role_sound m name role deadlock e h = ground arith

check_secret_role_iff :
    (m : Manifest) (name : Str) (role : Role)
    → (check_secret_role m name role ≡ ok tt) ↔ (
        All IsSecretAction role.actions
        × All (SecretIsGrantable m role.actions) role.resource_names)
unfolding check_secret_role
check_secret_role_iff m name role = (
  check_secret_role_sound m name role _ refl,
  (λ h.
      rw (secret_actions-known name role.actions false false h.0)
        ((role_secrets_iff m name role.resource_names _).1 h.1)),
)

pub check_role_iff : (m : Manifest) (x : Str × Role) → (check_role m x ≡ ok tt) ↔ RoleIsSound m x
unfolding check_role
check_role_iff m (name, role) = ground (
  arith,
  str_eq_iff role.resource_type (codes "Packages"),
  str_eq_iff role.resource_type (codes "Secrets"),
  check_package_role_iff m name role,
  check_secret_role_iff m name role,
)
