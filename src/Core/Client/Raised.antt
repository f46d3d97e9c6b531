-- ===== src/Core/Client/Raised.antt =====
-- The security versions after UpdateManifest has raised them.
pub mod Unversioned
use marblerun.Base.{
  All, Bool-cases, Map, Option, Result, Str, [], arith, get, get-put, inl, inr, none, ok, panic,
  put, refl, some, str_eq, str_eq_iff, subst, ℕ, ◌∷◌, ◌≡◌, ◌≤◌, deadlock, err,
}
use marblerun.Core.Client.Update.{raise_versions, set_version}
use marblerun.Manifest.{Manifest}
use marblerun.Manifest.Update.{Raises, UpdateIsSound, check_update, check_update_iff}
use marblerun.Quote.{PackageProperties}

-- A security version that is not lower than the old one.
abbrev pub NotLower : Option ℕ → Option ℕ → Type 0
NotLower new none = Unit {0}
NotLower none (some old) = ⊥
NotLower (some new) (some old) = old ≤ new

-- The package is the old one but for its security version, which is not lower.
pub record IsRaised (old new : PackageProperties) : Type 0 where
  pub debug_same : new.debug ≡ old.debug
  pub unique_id_same : new.unique_id ≡ old.unique_id
  pub signer_id_same : new.signer_id ≡ old.signer_id
  pub product_id_same : new.product_id ≡ old.product_id
  pub not_lower : NotLower new.security_version old.security_version

-- Each package of `result` is one of `current` with the same name, raised or left as it is.
abbrev pub AllRaised : Map PackageProperties → Map PackageProperties → Type 0
AllRaised current result =
    (k : Str) (q : PackageProperties)
    → get result k ≡ some q
    → (p : PackageProperties) × (get current k ≡ some p) × IsRaised p q

NotLower-refl : (v : Option ℕ) → NotLower v v
NotLower-refl none = tt
NotLower-refl (some n) = omega arith

IsRaised-refl : (p : PackageProperties) → IsRaised p p
IsRaised-refl p = record {
  debug_same = refl;
  unique_id_same = refl;
  signer_id_same = refl;
  product_id_same = refl;
  not_lower = NotLower-refl p.security_version;
}

Raises-NotLower : (new old : Option ℕ) → Raises new old → NotLower new old
Raises-NotLower none old h = elim h [ ]
Raises-NotLower (some new) none h = tt
Raises-NotLower (some new) (some old) h = h

-- setting the version of a package that was raised before
set_version-IsRaised :
    (new : Option ℕ) (p q r : PackageProperties)
    → IsRaised p q
    → Raises new p.security_version
    → set_version q new ≡ ok r
    → IsRaised p r
unfolding set_version
set_version-IsRaised none p q r raised h e = cc
set_version-IsRaised (some v) p q r raised h e =
    let not_lower : NotLower (some v) p.security_version =
      Raises-NotLower (some v) p.security_version h in
    elim q.security_version
        as (λ o.
          (elim o as (λ o. Result PackageProperties) [
            | none ↦ panic "nil pointer dereference"
            | some old ↦ ok (record q { security_version = some v })
          ])
            ≡ ok r
          → IsRaised p r) [
            | none ↦ λ e. cc
            | some old ↦ λ e.
                let same : record q { security_version = some v } ≡ r = ground arith in
                subst (IsRaised p) same (record {
                  debug_same = raised.debug_same;
                  unique_id_same = raised.unique_id_same;
                  signer_id_same = raised.signer_id_same;
                  product_id_same = raised.product_id_same;
                  not_lower = not_lower;
                })
          ]
      e

put-AllRaised :
    (current acc : Map PackageProperties) (name : Str) (p r : PackageProperties)
    → AllRaised current acc
    → get current name ≡ some p
    → IsRaised p r
    → AllRaised current (put acc name r)
put-AllRaised current acc name p r all known raised k q found = elim (Bool-cases (str_eq name k)) [
  | inl same ↦
      let value : r ≡ q = ground (arith, get-put acc name k r) in
      (
        p,
        subst (λ j. get current j ≡ some p) ((str_eq_iff name k).0 same) known,
        subst (IsRaised p) value raised,
      )
  | inr other ↦ all k q (ground (arith, get-put acc name k r))
]

-- what an entry that CheckUpdate accepts does to the packages
raise_one :
    (current acc : Map PackageProperties) (name : Str) (p q r : PackageProperties)
    → AllRaised current acc
    → UpdateIsSound current (name, p)
    → get acc name ≡ some q
    → set_version q p.security_version ≡ ok r
    → AllRaised current (put acc name r)
raise_one current acc name p q r all (original, known, replace) found e =
    let (old, old_known, raised) = all name q found in
    let same : original ≡ old = ground arith in
    put-AllRaised current acc name old r all old_known (
      set_version-IsRaised p.security_version old q r raised
        (subst (λ o. Raises p.security_version o.security_version) same replace.4) e)

raise_versions-AllRaised :
    (current acc result : Map PackageProperties) (packages : Map PackageProperties)
    → AllRaised current acc
    → All (UpdateIsSound current) packages
    → raise_versions packages acc ≡ ok result
    → AllRaised current result
unfolding raise_versions
raise_versions-AllRaised current acc result [] all sound e =
    let same : acc ≡ result = cc in subst (AllRaised current) same all
raise_versions-AllRaised current acc result ((name, p) ∷ packages) all (s, sound) e =
    looked_up (get acc name) refl e
      (λ next a. raise_versions-AllRaised current next result packages a sound)
  where
    set :
        (q : PackageProperties) (r : Result PackageProperties)
        → get acc name ≡ some q
        → set_version q p.security_version ≡ r
        → (elim r [
          | ok r ↦ raise_versions packages (put acc name r)
          | err x ↦ err x
          | panic x ↦ panic x
          | deadlock ↦ deadlock
        ])
          ≡ ok result
        → ((next : Map PackageProperties)
            → AllRaised current next
            → raise_versions packages next ≡ ok result
            → AllRaised current result)
        → AllRaised current result
    set q (ok r) found h e rec =
        rec (put acc name r) (raise_one current acc name p q r all s found h) e
    set q (err x) found h e rec = cc
    set q (panic x) found h e rec = cc
    set q deadlock found h e rec = cc

    looked_up :
        (o : Option PackageProperties)
        → get acc name ≡ o
        → (elim o [
          | none ↦ panic "nil pointer dereference"
          | some q ↦ elim (set_version q p.security_version) [
            | ok r ↦ raise_versions packages (put acc name r)
            | err x ↦ err x
            | panic x ↦ panic x
            | deadlock ↦ deadlock
          ]
        ])
          ≡ ok result
        → ((next : Map PackageProperties)
            → AllRaised current next
            → raise_versions packages next ≡ ok result
            → AllRaised current result)
        → AllRaised current result
    looked_up none found e rec = cc
    looked_up (some q) found e rec = set q (set_version q p.security_version) found refl e rec

-- If CheckUpdate accepts an update of the current packages and the versions are then set without a
-- panic, each package is as before but for its security version, and no security version is lower.
pub check_update-AllRaised :
    (update : Manifest) (current result : Map PackageProperties)
    → check_update update current ≡ ok tt
    → raise_versions update.packages current ≡ ok result
    → AllRaised current result
check_update-AllRaised update current result accepted e =
    raise_versions-AllRaised current current result update.packages
      (λ k q found. (q, found, IsRaised-refl q)) ((check_update_iff update current).0 accepted).1 e
