-- ===== src/Core/Client/Packages.antt =====
-- The packages that UpdateManifest writes are those that the user is granted to update.
use marblerun.Base.{
  All, Bool, Bool-cases, Bytes, List, Map, Result, Str, [], arith, deadlock, err, every, false, get,
  get-put, inl, inr, keys, not, ok, panic, put, some, str_eq, str_eq_iff, subst, sym, true, ◌∷◌,
  ◌≡◌, ◌⊎◌,
}
use marblerun.Core.Getters.{get_package}
use marblerun.Manifest.{Certificate, Manifest}
use marblerun.Quote.{PackageProperties}
use marblerun.Services.{Services}
use marblerun.User.{User, is_granted, new_permission, update_package}
use marblerun.Core.Client.Raised.{check_update-AllRaised}
use marblerun.Core.Client.Update.{read_packages, raise_versions}
use marblerun.Manifest.Update.{check_update}
use marblerun.User.Grants.{allows, is_granted-allows}
use marblerun.Core.Changes.{All-entries}

every-keys :
    (f : Str → Bool) (m : Map PackageProperties)
    → every f (keys m) ≡ true
    → All (λ x. f x.0 ≡ true) m
every-keys f [] h = tt
every-keys f ((k, p) ∷ m) h = (ground arith, every-keys f m (ground arith))

-- a property of the names that are looked up holds of the keys of what is read
read_packages_names :
    (ext : Services) (m : Map Bytes) (Q : Str → Type 0)
    (packages acc result : Map PackageProperties)
    → All (λ x. Q x.0) packages
    → ((k : Str) (q : PackageProperties) → get acc k ≡ some q → Q k)
    → read_packages ext m packages acc ≡ ok result
    → (k : Str) (q : PackageProperties) → get result k ≡ some q
    → Q k
unfolding read_packages
read_packages_names ext m Q [] acc result all known e = λ k q found.
    let same : acc ≡ result = cc in known k q (subst (λ r. get r k ≡ some q) (sym same) found)
read_packages_names ext m Q ((name, p) ∷ packages) acc result (here, all) known e =
    next (get_package ext m name) e (λ more. read_packages_names ext m Q packages more result all)
  where
    put_known :
        (r : PackageProperties) (k : Str) (q : PackageProperties)
        → get (put acc name r) k ≡ some q
        → ((str_eq name k ≡ true) ⊎ (str_eq name k ≡ false))
        → Q k
    put_known r k q found (inl same) = subst Q ((str_eq_iff name k).0 same) here
    put_known r k q found (inr other) = known k q (ground (arith, get-put acc name k r, other))

    next :
        (r : Result PackageProperties)
        → (elim r [
          | ok r ↦ read_packages ext m packages (put acc name r)
          | err x ↦ err x
          | panic x ↦ panic x
          | deadlock ↦ deadlock
        ])
          ≡ ok result
        → ((more : Map PackageProperties)
            → ((k : Str) (q : PackageProperties) → get more k ≡ some q → Q k)
            → read_packages ext m packages more ≡ ok result
            → (k : Str) (q : PackageProperties) → get result k ≡ some q
            → Q k)
        → (k : Str) (q : PackageProperties) → get result k ≡ some q
        → Q k
    next (ok r) h rec =
        rec (put acc name r) (λ k q found. put_known r k q found (Bool-cases (str_eq name k))) h
    next (err x) h rec = λ k q found. cc
    next (panic x) h rec = λ k q found. cc
    next deadlock h rec = λ k q found. cc

pub packages_granted :
    (updater : User Certificate) (names : List Str)
    → not (is_granted updater (new_permission update_package names)) ≡ false
    → every (allows updater update_package) names ≡ true
packages_granted updater names h =
    is_granted-allows updater update_package names (ground (arith, h))

-- the packages that are written are those that the user is granted to update
pub raised_granted :
    (ext : Services) (m : Map Bytes) (updater : User Certificate) (update : Manifest)
    (current raised : Map PackageProperties)
    → every (allows updater update_package) (keys update.packages) ≡ true
    → read_packages ext m update.packages [] ≡ ok current
    → check_update update current ≡ ok tt
    → raise_versions update.packages current ≡ ok raised
    → All (λ x. allows updater update_package x.0 ≡ true) raised
unfolding get
raised_granted ext m updater update current raised granted read_e accepted raised_e =
    All-entries (λ k. allows updater update_package k ≡ true) raised
      λ k q found.
        let (p, known, r) =
          check_update-AllRaised update current raised accepted raised_e k q found in
        read_packages_names ext m (λ k. allows updater update_package k ≡ true) update.packages []
          current (every-keys (allows updater update_package) update.packages granted)
          (λ k q found. cc) read_e k p known
