-- ===== src/User/Tests.antt =====
-- Runs of the user package and the theorems at concrete inputs.
use marblerun.Base.{[], codes, every, false, get, put, refl, str_eq, true, ◌&&◌, ◌∷◌, ◌≡◌}
use marblerun.User.{User, assign, covers, is_granted, new_permission, new_user, write_secret}
use marblerun.User.Grants.{
  IsKeyed, allows, assign-IsKeyed, holds, is_granted-eq-allows, new_user-IsKeyed,
}

abbrev alice : User (Unit {0})
alice = assign (new_user (codes "alice") tt) (new_permission write_secret (codes "a" ∷ []))

write_granted : is_granted alice (new_permission write_secret (codes "a" ∷ [])) ≡ true
unfolding assign is_granted new_user new_permission get put str_eq covers
write_granted = refl

other_refused : is_granted alice (new_permission write_secret (codes "a" ∷ codes "b" ∷ [])) ≡ false
unfolding assign is_granted new_user new_permission get put str_eq covers
other_refused = refl

alice-IsKeyed : IsKeyed alice
alice-IsKeyed = assign-IsKeyed _ _ (new_user-IsKeyed (codes "alice") tt)

is_granted-eq-allows_example :
    is_granted alice (new_permission write_secret (codes "a" ∷ []))
    ≡ (holds alice write_secret && every (allows alice write_secret) (codes "a" ∷ []))
is_granted-eq-allows_example =
    is_granted-eq-allows alice write_secret (codes "a" ∷ []) alice-IsKeyed
