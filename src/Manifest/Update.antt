-- ===== src/Manifest/Update.antt =====
-- Manifest.CheckUpdate of coordinator/manifest/manifest.go.
use marblerun.Base.{
  All, Bool, Map, Option, Result, Str, [], arith, err, errorf, false, get, is_empty, is_nil, ltb,
  none, not, ok, some, ℕ, ◌||◌, ◌↔◌, ◌≡◌, ◌≢◌, ◌≤◌, refl, subst,
}
use marblerun.Manifest.{Manifest}
use marblerun.Manifest.Loops.{not_empty_iff}
use marblerun.Manifest.Loops.{for_each, for_each_iff}
use marblerun.Quote.{PackageProperties}
use marblerun.Base.Pure.{◌>>◌, reject_if, both_iff}

-- `originalPackages[name].SecurityVersion != nil && *new < *original`
downgrades : ℕ → Option ℕ → Bool
downgrades new none = false
downgrades new (some old) = ltb new old

check_version : Option ℕ → Option ℕ → Result (Unit {0})
check_version none original =
    err (errorf "update manifest does not specify a SecurityVersion to update" [])
check_version (some new) original =
    reject_if (downgrades new original)
      (errorf "update manifest tries to downgrade SecurityVersion of the original manifest" [])

check_updated : PackageProperties → Option PackageProperties → Result (Unit {0})
check_updated p none =
    err
      (errorf "update manifest specifies a package which the original manifest does not contain" [])
check_updated p (some original) = do
  reject_if
      (p.debug
        || (not (is_empty p.unique_id)
            || (not (is_empty p.signer_id) || not (is_nil p.product_id))))
      (errorf "update manifest contains unupdatable values" [])
  check_version p.security_version original.security_version

-- one round of the loop over the packages
check_package_update : Map PackageProperties → Str × PackageProperties → Result (Unit {0})
check_package_update originals (name, p) = check_updated p (get originals name)

-- Manifest.CheckUpdate
pub check_update : Manifest → Map PackageProperties → Result (Unit {0})
check_update m originals = do
  reject_if (is_empty m.packages) (errorf "no packages defined" [])
  for_each (check_package_update originals) m.packages

-- The version is given, and is not below the one that it replaces.
abbrev pub Raises : Option ℕ → Option ℕ → Type 0
Raises none original = ⊥
Raises (some new) none = Unit {0}
Raises (some new) (some old) = old ≤ new

-- What an update asks of the original package.
abbrev pub MayReplace : PackageProperties → PackageProperties → Type 0
MayReplace p original =
    (p.debug ≡ false)
    × (p.unique_id ≡ [])
    × (p.signer_id ≡ [])
    × (p.product_id ≡ none)
    × Raises p.security_version original.security_version

-- An update names a package that exists, nothing of it but the security version, and does not
-- lower that.
abbrev pub UpdateIsSound : Map PackageProperties → Str × PackageProperties → Type 0
UpdateIsSound originals (name, p) =
    (original : PackageProperties) × (get originals name ≡ some original) × MayReplace p original

check_version_iff :
    (new original : Option ℕ) → (check_version new original ≡ ok tt) ↔ Raises new original
unfolding check_version downgrades
check_version_iff none original = ground arith
check_version_iff (some new) none = ground arith
check_version_iff (some new) (some old) = ground arith

check_updated_iff :
    (p : PackageProperties) (o : Option PackageProperties)
    → (check_updated p o ≡ ok tt)
      ↔ ((original : PackageProperties) × (o ≡ some original) × MayReplace p original)
unfolding check_updated
check_updated_iff p none = ((λ h. cc), (λ (q, e, r). cc))
check_updated_iff p (some original) =
    let version = check_version_iff p.security_version original.security_version in
    (
      (λ h. (original, refl, ground (arith, version))),
      (λ (q, e, r). let same : q ≡ original = cc in back (subst (MayReplace p) same r)),
    )
  where
    back : MayReplace p original → check_updated p (some original) ≡ ok tt
    back r = ground (arith, check_version_iff p.security_version original.security_version)

-- An update manifest is accepted exactly when it is not empty and every entry names an original
-- package, sets nothing but its security version, and does not lower it.
pub check_update_iff :
    (m : Manifest) (originals : Map PackageProperties)
    → (check_update m originals ≡ ok tt)
      ↔ ((m.packages ≢ []) × All (UpdateIsSound originals) m.packages)
unfolding check_update check_package_update
check_update_iff m originals = both_iff _ _ (not_empty_iff m.packages _) (
    for_each_iff _ (UpdateIsSound originals) m.packages
      (λ x. check_updated_iff x.1 (get originals x.0)))
