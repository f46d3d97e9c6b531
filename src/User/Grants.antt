-- ===== src/User/Grants.antt =====
-- What `IsGranted` answers in terms of the grants that `Assign` has made.
use marblerun.Base.{
  Str, str_eq, str_eq_iff, Map, get, put, get-put, has, every, ◌≡◌, refl, sym, ◌∙◌, List, [], ◌∷◌,
  Bool, true, false, ◌||◌, ◌&&◌, Option, none, some, arith,
}
use marblerun.User.{
  Permission, User, new_permission, new_user, assign, is_granted, mark_all, marked, covers, matches,
  merge, assign_to, granted_by,
}

-- Whether a stored permission marks the resource.
abbrev pub marks : Option Permission → Str → Bool
marks none r = false
marks (some p) r = marked p.resource_id r

-- The view of a user: which action is allowed on which resource.
abbrev pub allows {ℓ} : {Cert : Type ℓ} → User Cert → Str → Str → Bool
allows u id r = marks (get u.permissions id) r

abbrev pub mem : Str → List Str → Bool
mem r [] = false
mem r (x ∷ xs) = str_eq x r || mem r xs

-- Some entry marks the resource, whatever stands before it.
any_marked : Map Bool → Str → Bool
any_marked [] r = false
any_marked ((k, v) ∷ m) r = (str_eq k r && v) || any_marked m r

any_marked-put :
    (m : Map Bool) (k r : Str) → any_marked (put m k true) r ≡ (str_eq k r || any_marked m r)
unfolding any_marked put
any_marked-put [] k r = ground arith
any_marked-put ((j, w) ∷ m) k r =
    ground (arith, any_marked-put m k r, str_eq_iff j k, str_eq_iff j r, str_eq_iff k r)

any_marked-mark_all :
    (m : Map Bool) (rs : List Str) (r : Str)
    → any_marked (mark_all m rs) r ≡ (any_marked m r || mem r rs)
unfolding mark_all
any_marked-mark_all m [] r = ground arith
any_marked-mark_all m (x ∷ xs) r =
    ground (arith, any_marked-mark_all (put m x true) xs r, any_marked-put m x r)

marked-mark_all :
    (m : Map Bool) (rs : List Str) (r : Str) → marked (mark_all m rs) r ≡ (marked m r || mem r rs)
unfolding mark_all
marked-mark_all m [] r = ground arith
marked-mark_all m (x ∷ xs) r =
    ground (arith, marked-mark_all (put m x true) xs r, get-put m x r true)

marked-merge : (m p : Map Bool) (r : Str) → marked (merge m p) r ≡ (marked m r || any_marked p r)
unfolding merge any_marked
marked-merge m [] r = ground arith
marked-merge m ((k, v) ∷ p) r = ground (
  arith,
  marked-merge (put m k (marked m k || v)) p r,
  get-put m k r (marked m k || v),
  str_eq_iff k r,
)

covers-put : (p m : Map Bool) (k : Str) → covers p (put m k true) ≡ (covers p m && marked p k)
unfolding covers put
covers-put p [] k = ground arith
covers-put p ((j, w) ∷ m) k = ground (arith, covers-put p m k, str_eq_iff j k)

covers-mark_all :
    (p m : Map Bool) (rs : List Str)
    → covers p (mark_all m rs) ≡ (covers p m && every (marked p) rs)
unfolding mark_all
covers-mark_all p m [] = ground arith
covers-mark_all p m (x ∷ xs) = ground (arith, covers-mark_all p (put m x true) xs, covers-put p m x)

marks-assign_to :
    (ps : Map Permission) (p : Permission) (o : Option Permission) (i r : Str)
    → get ps p.permission_id ≡ o
    → marked p.resource_id r ≡ any_marked p.resource_id r
    → marks (get (assign_to ps p o) i) r
      ≡ (marks (get ps i) r || (str_eq p.permission_id i && any_marked p.resource_id r))
unfolding assign_to
marks-assign_to ps p none i r e h =
    ground (arith, get-put ps p.permission_id i p, str_eq_iff p.permission_id i)
marks-assign_to ps p (some q) i r e h =
    let q' : Permission = record q { resource_id = merge q.resource_id p.resource_id } in
    ground (
      arith,
      get-put ps p.permission_id i q',
      marked-merge q.resource_id p.resource_id r,
      str_eq_iff p.permission_id i,
    )

-- Each permission is stored under its own ID.
pub record IsKeyed {ℓ} {Cert : Type ℓ} (u : User Cert) : Type 0 where
  pub at : (id : Str) (p : Permission) → get u.permissions id ≡ some p → p.permission_id ≡ id

keyed-assign_to :
    (ps : Map Permission) (p : Permission) (o : Option Permission)
    → get ps p.permission_id ≡ o
    → ((id : Str) (q : Permission) → get ps id ≡ some q → q.permission_id ≡ id)
    → (id : Str) (q : Permission) → get (assign_to ps p o) id ≡ some q
    → q.permission_id ≡ id
unfolding assign_to
keyed-assign_to ps p none e h id q g =
    ground (arith, get-put ps p.permission_id id p, str_eq_iff p.permission_id id, h id q)
keyed-assign_to ps p (some o) e h id q g =
    let o' : Permission = record o { resource_id = merge o.resource_id p.resource_id } in
    ground (
      arith,
      get-put ps p.permission_id id o',
      str_eq_iff p.permission_id id,
      h id q,
      h p.permission_id o,
    )

holds-assign_to :
    (ps : Map Permission) (p : Permission) (o : Option Permission) (i : Str)
    → get ps p.permission_id ≡ o
    → has (assign_to ps p o) i ≡ (has ps i || str_eq p.permission_id i)
unfolding assign_to
holds-assign_to ps p none i e =
    ground (arith, get-put ps p.permission_id i p, str_eq_iff p.permission_id i)
holds-assign_to ps p (some o) i e =
    let o' : Permission = record o { resource_id = merge o.resource_id p.resource_id } in
    ground (arith, get-put ps p.permission_id i o', str_eq_iff p.permission_id i)

granted_by-eq :
    (o : Option Permission) (p : Permission) (rs : List Str)
    → ((q : Permission) → o ≡ some q → q.permission_id ≡ p.permission_id)
    → ((q : Permission) → covers q.resource_id p.resource_id ≡ every (marked q.resource_id) rs)
    → granted_by p o ≡ ((elim o [ none ↦ false | some v ↦ true ]) && every (marks o) rs)
unfolding granted_by matches
granted_by-eq none p rs k c = refl
granted_by-eq (some q) p rs k c =
    ground (arith, k q refl, c q, str_eq_iff q.permission_id p.permission_id)

granted_by-marks :
    (o : Option Permission) (p : Permission) (rs : List Str)
    → ((q : Permission) → covers q.resource_id p.resource_id ≡ every (marked q.resource_id) rs)
    → granted_by p o ≡ true
    → every (marks o) rs ≡ true
unfolding granted_by matches
granted_by-marks none p rs c h = cc
granted_by-marks (some q) p rs c h = ground (arith, c q)

-- Whether the user holds any permission of the ID.
abbrev pub holds {ℓ} : {Cert : Type ℓ} → User Cert → Str → Bool
holds u id = has u.permissions id

module _ {ℓ} {Cert : Type ℓ} where
  -- After an assignment a user is allowed what he was allowed before, and the named action on
  -- the named resources; nothing else.
  pub allows-assign :
      (u : User Cert) (id : Str) (rs : List Str) (i r : Str)
      → allows (assign u (new_permission id rs)) i r ≡ (allows u i r || (str_eq id i && mem r rs))
  unfolding assign new_permission any_marked get
  allows-assign u id rs i r = rw (← any_marked-mark_all [] rs r) (
      marks-assign_to u.permissions (new_permission id rs) (get u.permissions id) i r refl
        (marked-mark_all [] rs r ∙ sym (any_marked-mark_all [] rs r)))

  pub assign-IsKeyed : (u : User Cert) (p : Permission) → IsKeyed u → IsKeyed (assign u p)
  unfolding assign
  assign-IsKeyed u p h = record {
    at = keyed-assign_to u.permissions p (get u.permissions p.permission_id) refl h.at;
  }

  pub new_user-IsKeyed : (name : Str) (cert : Cert) → IsKeyed (new_user name cert)
  unfolding new_user get
  new_user-IsKeyed name cert = record { at = λ id p g. cc }

  pub holds-assign :
      (u : User Cert) (p : Permission) (i : Str)
      → holds (assign u p) i ≡ (holds u i || str_eq p.permission_id i)
  unfolding assign
  holds-assign u p i = holds-assign_to u.permissions p (get u.permissions p.permission_id) i refl

  -- For a user whose permissions are stored under their own identifiers, a request for an action on
  -- a list of resources is granted exactly when the user holds a permission for the action and is
  -- allowed the action on every one of the resources.
  pub is_granted-eq-allows :
      (u : User Cert) (id : Str) (rs : List Str)
      → IsKeyed u
      → is_granted u (new_permission id rs) ≡ (holds u id && every (allows u id) rs)
  unfolding is_granted new_permission covers
  is_granted-eq-allows u id rs k =
      granted_by-eq (get u.permissions id) (new_permission id rs) rs (k.at id)
        (λ q. covers-mark_all q.resource_id [] rs)

  -- a request that is granted is allowed on every one of the resources, whatever the stored permissions
  pub is_granted-allows :
      (u : User Cert) (id : Str) (rs : List Str)
      → is_granted u (new_permission id rs) ≡ true
      → every (allows u id) rs ≡ true
  unfolding is_granted new_permission covers
  is_granted-allows u id rs h =
      granted_by-marks (get u.permissions id) (new_permission id rs) rs
        (λ q. covers-mark_all q.resource_id [] rs) h
