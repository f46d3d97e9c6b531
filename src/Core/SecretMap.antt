-- ===== src/Core/SecretMap.antt =====
-- The secrets that the store holds.
use marblerun.Base.{
  Bool-cases, Bytes, List, Map, Result, Str, [], ap, arith, deadlock, err, get, get-put, inl, inr,
  ok, panic, put, refl, some, str_eq, str_eq_iff, subst, ◌∙◌, ◌∷◌, ◌≡◌,
}
use marblerun.Core.{stored}
use marblerun.Core.Getters.{get_iterator, get_secret, get_secret_map, read_secrets, request_secret}
use marblerun.Manifest.{Secret}
use marblerun.Base.Pure.{◌>>=◌}
use marblerun.Services.{Services}

-- Each secret of the result is a stored one.
abbrev pub AreStored : Services → Map Bytes → Map Secret → Type 0
AreStored ext m secrets =
    (k : Str) (s : Secret) → get secrets k ≡ some s → get_secret ext m k ≡ ok s

pub put-AreStored :
    (ext : Services) (m : Map Bytes) (secrets : Map Secret) (name : Str) (secret : Secret)
    → AreStored ext m secrets
    → get_secret ext m name ≡ ok secret
    → AreStored ext m (put secrets name secret)
put-AreStored ext m secrets name secret all stored k s found = elim (Bool-cases (str_eq name k)) [
  | inl same ↦
      let value : secret ≡ s = ground (arith, get-put secrets name k secret) in
      subst (λ j. get_secret ext m j ≡ ok s) ((str_eq_iff name k).0 same) (stored ∙ ap ok value)
  | inr other ↦ all k s (ground (arith, get-put secrets name k secret))
]

read_secrets-AreStored :
    (ext : Services) (m : Map Bytes) (names : List Str) (secrets result : Map Secret)
    → AreStored ext m secrets
    → read_secrets ext m names secrets ≡ ok result
    → AreStored ext m result
unfolding read_secrets
read_secrets-AreStored ext m [] secrets result all e =
    let same : secrets ≡ result = cc in subst (AreStored ext m) same all
read_secrets-AreStored ext m (name ∷ names) secrets result all e =
    next (get_secret ext m name) refl e (λ more. read_secrets-AreStored ext m names more result)
  where
    next :
        (r : Result Secret)
        → get_secret ext m name ≡ r
        → (r >>= λ secret. read_secrets ext m names (put secrets name secret)) ≡ ok result
        → ((more : Map Secret)
            → AreStored ext m more
            → read_secrets ext m names more ≡ ok result
            → AreStored ext m result)
        → AreStored ext m result
    next (ok secret) g h rec =
        rec (put secrets name secret) (put-AreStored ext m secrets name secret all g) h
    next (err x) g h rec = cc
    next (panic x) g h rec = cc
    next deadlock g h rec = cc

pub get_secret_map-AreStored :
    (ext : Services) (m : Map Bytes) (secrets : Map Secret)
    → get_secret_map ext m ≡ ok secrets
    → AreStored ext m secrets
unfolding get_secret_map get
get_secret_map-AreStored ext m secrets e =
    read_secrets-AreStored ext m (get_iterator m request_secret) [] secrets (λ k s found. cc) e
