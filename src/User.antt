-- ===== src/User.antt =====
-- coordinator/user/user.go: users and their permissions. The proofs stand in the child modules.
pub mod Grants
mod Tests
use marblerun.Base.{
  Str, codes, str_eq, Slice, Map, get, put, List, [], ◌∷◌, Bool, true, false, ◌||◌, ◌&&◌, Option,
  none, some, not, if◌then◌else◌,
}

abbrev pub write_secret : Str
write_secret = codes "writesecret"

abbrev pub read_secret : Str
read_secret = codes "readsecret"

abbrev pub update_package : Str
update_package = codes "updatesecurityversion"

pub record Permission : Type 0 where
  pub permission_id : Str
  pub resource_id : Map Bool

-- `newPermission.ResourceID[v] = true` for each resource
mark_all : Map Bool → List Str → Map Bool
mark_all m [] = m
mark_all m (v ∷ vs) = mark_all (put m v true) vs

unfoldable pub new_permission : Str → List Str → Permission
unfolding mark_all
new_permission id resources = record { permission_id = id; resource_id = mark_all [] resources }

-- m[k] of a map of Booleans: a missing key reads as false
abbrev pub marked : Map Bool → Str → Bool
marked m k = elim (get m k) [ none ↦ false | some b ↦ b ]

-- `for k := range q.ResourceID { if !p.ResourceID[k] { return false } }`
covers : Map Bool → Map Bool → Bool
covers p [] = true
covers p ((k, v) ∷ q) = if marked p k then covers p q else false

-- Permission.match
matches : Permission → Permission → Bool
unfolding covers
matches p q =
    if not (str_eq p.permission_id q.permission_id)
    then false
    else covers p.resource_id q.resource_id

pub record User {ℓ} (Cert : Type ℓ) : Type ℓ where
  pub name : Str
  pub certificate : Cert
  pub permissions : Map Permission

-- `for k, v := range p.ResourceID { m[k] = m[k] || v }`
merge : Map Bool → Map Bool → Map Bool
merge m [] = m
merge m ((k, v) ∷ p) = merge (put m k (marked m k || v)) p

assign_to : Map Permission → Permission → Option Permission → Map Permission
assign_to ps p none = put ps p.permission_id p
assign_to ps p (some q) =
    put ps p.permission_id (record q { resource_id = merge q.resource_id p.resource_id })

granted_by : Permission → Option Permission → Bool
granted_by p none = false
granted_by p (some q) = matches q p

module _ {ℓ} {Cert : Type ℓ} where
  unfoldable pub new_user : Str → Cert → User Cert
  new_user name cert = record { name = name; certificate = cert; permissions = [] }

  -- User.Assign
  unfoldable pub assign : User Cert → Permission → User Cert
  unfolding assign_to merge
  assign u p = record u {
    permissions = assign_to u.permissions p (get u.permissions p.permission_id);
  }

  -- User.IsGranted
  unfoldable pub is_granted : User Cert → Permission → Bool
  unfolding granted_by matches
  is_granted u p = granted_by p (get u.permissions p.permission_id)
