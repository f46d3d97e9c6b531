-- ===== src/Seal/Concrete.antt =====
-- A platform that meets the laws: the files are a map, and encryption writes 28 zeros in front.
use marblerun.Base.{
  Bytes, Map, Result, Str, [], arith, codes, drop, err, false, get, get-put, get-put_self, length,
  none, not_exist, ok, put, refl, some, str_eq, subst, take, ◌++◌, ◌+◌, ◌∷◌, ◌≡◌,
}
use marblerun.Seal.{Platform, PlatformLaws}

abbrev pub zeros : Bytes
zeros =
    0 ∷ 0 ∷ 0 ∷ 0 ∷ 0 ∷ 0 ∷ 0 ∷ 0 ∷ 0 ∷ 0 ∷ 0 ∷ 0 ∷ 0 ∷ 0 ∷ 0 ∷ 0 ∷ 0 ∷ 0 ∷ 0 ∷ 0 ∷ 0 ∷ 0 ∷ 0 ∷ 0
    ∷ 0 ∷ 0 ∷ 0 ∷ 0 ∷ []

unfoldable pub read_map : Str → Map Bytes → Result Bytes
read_map n files = elim (get files n) [ none ↦ err not_exist | some b ↦ ok b ]

abbrev pub concrete_platform : Platform
concrete_platform = record {
  State = Map Bytes;
  read_file = read_map;
  write_file = λ n b files. (ok tt, put files n b);
  encrypt = λ b k files. (ok (zeros ++ b), files);
  decrypt = λ c k. ok (drop 28 c);
  seal_with_product_key = λ k files. (ok k, files);
  unseal_key = λ c. ok c;
  random_bytes = λ n files. (ok (take n zeros), files);
  format_now = λ files. codes "20260101000000";
}

read_map-put : (n : Str) (b : Bytes) (files : Map Bytes) → read_map n (put files n b) ≡ ok b
unfolding read_map
read_map-put n b files = rw (get-put_self files n b, read_map)

read_map-put_ne :
    (n m : Str) (b : Bytes) (files : Map Bytes)
    → str_eq n m ≡ false
    → read_map m (put files n b) ≡ read_map m files
unfolding read_map
read_map-put_ne n m b files e = ground (arith, get-put files n m b)

pub concrete_platform-laws : PlatformLaws concrete_platform
concrete_platform-laws = record {
  read-write = λ n b s s' e. subst (λ r. read_map n r.1 ≡ ok b) e (read_map-put n b s);
  read-write_ne = read_map-put_ne;
  read-encrypt = λ m b k s. refl;
  read-seal = λ m k s. refl;
  read-random = λ m n s. refl;
  decrypt-encrypt = λ b k c s s' e.
      let same : zeros ++ b ≡ c = ground arith in
      subst (λ d. (◌≡◌ {A = Result Bytes} (ok (drop 28 d)) (ok b)) × (length d ≡ length b + 28))
        same (refl, omega arith);
  unseal-seal = λ k c s s' e. ground arith;
}
