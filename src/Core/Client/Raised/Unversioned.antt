-- ===== src/Core/Client/Raised/Unversioned.antt =====
-- When the loop of UpdateManifest that raises the security versions panics.
use marblerun.Base.{
  All, Bool, Bool-cases, Map, Option, Result, Str, [], arith, false, get, get-put, inl, inr, none,
  ok, panic, put, refl, some, str_eq, str_eq_iff, subst, sym, true, ℕ, ◌∷◌, ◌≡◌, ◌⊎◌,
}
use marblerun.Core.Client.Update.{raise_versions, set_version}
use marblerun.Manifest.{Manifest}
use marblerun.Manifest.Update.{UpdateIsSound, Raises, check_update, check_update_iff}
use marblerun.Quote.{PackageProperties}

-- The current package of the name has no security version.
abbrev pub IsUnversioned : Map PackageProperties → Str → Type 0
IsUnversioned current name =
    (q : PackageProperties) × (get current name ≡ some q) × (q.security_version ≡ none)

-- One of the packages that an update names has no security version.
abbrev pub NamesUnversioned : Map PackageProperties → Map PackageProperties → Type 0
NamesUnversioned current [] = ⊥
NamesUnversioned current ((name, p) ∷ packages) =
    IsUnversioned current name ⊎ NamesUnversioned current packages

-- The loop panics and the update names a package without a version, or neither is so.
abbrev pub PanicsIfUnversioned :
    Map PackageProperties → Map PackageProperties → Result (Map PackageProperties) → Type 0
PanicsIfUnversioned current packages r =
    ((r ≡ panic "nil pointer dereference") × NamesUnversioned current packages)
    ⊎ (((result : Map PackageProperties) × (r ≡ ok result))
        × (NamesUnversioned current packages → ⊥))

-- whether there is a package, and whether it has a version
abbrev versioned : Option PackageProperties → Option Bool
versioned none = none
versioned (some q) = elim q.security_version [ none ↦ some false | some v ↦ some true ]

-- The loop so far has neither added a package nor given one its first version.
abbrev SameVersioned : Map PackageProperties → Map PackageProperties → Type 0
SameVersioned current acc = (k : Str) → versioned (get acc k) ≡ versioned (get current k)

put-SameVersioned :
    (current acc : Map PackageProperties) (name : Str) (q : PackageProperties) (old v : ℕ)
    → SameVersioned current acc
    → get acc name ≡ some q
    → q.security_version ≡ some old
    → SameVersioned current (put acc name (record q { security_version = some v }))
put-SameVersioned current acc name q old v same found versions k =
    elim (Bool-cases (str_eq name k)) [
      | inl here ↦
          let named : name ≡ k = (str_eq_iff name k).0 here in
          let known : get acc k ≡ some q = subst (λ j. get acc j ≡ some q) named found in
          ground (arith, get-put acc name k (record q { security_version = some v }), same k)
      | inr other ↦
          ground (arith, get-put acc name k (record q { security_version = some v }), same k)
    ]

-- an entry whose package has a version leaves the rest to decide
after_raise :
    (current packages : Map PackageProperties) (name : Str) (p : PackageProperties)
    (r : Result (Map PackageProperties))
    → (IsUnversioned current name → ⊥)
    → PanicsIfUnversioned current packages r
    → PanicsIfUnversioned current ((name, p) ∷ packages) r
after_raise current packages name p r n (inl (e, h)) = inl (e, inr h)
after_raise current packages name p r n (inr (result, none_left)) = inr (result, either)
  where
    either : NamesUnversioned current ((name, p) ∷ packages) → ⊥
    either (inl h) = n h
    either (inr h) = none_left h

-- one round of the loop, by the version that is set and the one that is there
raise_first :
    (current acc packages : Map PackageProperties) (name : Str) (p q original : PackageProperties)
    (new old : Option ℕ)
    → SameVersioned current acc
    → get current name ≡ some original
    → get acc name ≡ some q
    → p.security_version ≡ new
    → Raises new original.security_version
    → q.security_version ≡ old
    → ((next : Map PackageProperties)
        → SameVersioned current next
        → PanicsIfUnversioned current packages (raise_versions packages next))
    → PanicsIfUnversioned current ((name, p) ∷ packages) (raise_versions ((name, p) ∷ packages) acc)
unfolding raise_versions set_version
raise_first current acc packages name p q original none old same known found n raises v rest =
    elim raises [ ]
raise_first current acc packages name p q original (some new) none same known found n raises v
      rest =
    let missing : original.security_version ≡ none = ground (arith, same name) in
    inl (ground (arith, found, n, v), inl (original, known, missing))
raise_first current acc packages name p q original (some new) (some old) same known found n raises v
      rest =
    let next = put acc name (record q { security_version = some new }) in
    let step : raise_versions ((name, p) ∷ packages) acc ≡ raise_versions packages next =
      ground (arith, found, n, v) in
    subst (PanicsIfUnversioned current ((name, p) ∷ packages)) (sym step) (
      after_raise current packages name p _ (λ (o, e, m). ground (arith, same name, e, m, found, v))
        (rest next (put-SameVersioned current acc name q old new same found v)))

raised_or_panic :
    (current acc packages : Map PackageProperties)
    → SameVersioned current acc
    → All (UpdateIsSound current) packages
    → PanicsIfUnversioned current packages (raise_versions packages acc)
unfolding raise_versions
raised_or_panic current acc [] same sound = inr ((acc, refl), λ h. h)
raised_or_panic current acc ((name, p) ∷ packages) same ((original, known, replace), sound) =
    looked_up (get acc name) refl (λ next s. raised_or_panic current next packages s sound)
  where
    looked_up :
        (o : Option PackageProperties)
        → get acc name ≡ o
        → ((next : Map PackageProperties)
            → SameVersioned current next
            → PanicsIfUnversioned current packages (raise_versions packages next))
        → PanicsIfUnversioned current
            ((name, p) ∷ packages)
            (raise_versions ((name, p) ∷ packages) acc)
    looked_up none found rest = absurd (absent (original.security_version) refl)
      where
        absent : (v : Option ℕ) → original.security_version ≡ v → ⊥
        absent none e = ground (arith, same name)
        absent (some v) e = ground (arith, same name)
    looked_up (some q) found rest =
        raise_first current acc packages name p q original p.security_version q.security_version
          same known found refl replace.4 refl rest

-- If CheckUpdate accepts an update of the current packages, the loop that sets the versions panics
-- exactly if one of the packages that the update names has no security version so far, and otherwise
-- it ends with a result.
pub raise_versions-panics :
    (update : Manifest) (current : Map PackageProperties)
    → check_update update current ≡ ok tt
    → ((raise_versions update.packages current ≡ panic "nil pointer dereference")
        × NamesUnversioned current update.packages)
      ⊎ (((result : Map PackageProperties) × (raise_versions update.packages current ≡ ok result))
          × (NamesUnversioned current update.packages → ⊥))
raise_versions-panics update current accepted =
    raised_or_panic current current update.packages (λ k. refl)
      ((check_update_iff update current).0 accepted).1
