-- ===== src/Core/Changes.antt =====
-- Which keys of the data an action inside a transaction may change.
use marblerun.Base.{
  All, Bool-cases, Bytes, Map, Str, [], arith, false, get, get-put, inl, inr, put, refl, some,
  str_eq, str_eq_iff, subst, true, ◌++◌, ◌∷◌, ◌≡◌, ◌⊎◌,
}
use marblerun.Core.Getters.{request, request_update_log}
use marblerun.Core.Putters.{append_update_log, put_update_log, put_value}
use marblerun.Seal.Framing.Layout.{kept}
use marblerun.Base.Post.{Post, Post-read}
use marblerun.Base.Keeps.{Keeps, Keeps-bind}
use marblerun.Services.{Codec}
use marblerun.Store.{Transaction, tx_put}

-- Every key but those of `C` reads in `n` as in `m`.
abbrev pub OnlyChanges : (Str → Type 0) → Map Bytes → Map Bytes → Type 0
OnlyChanges C m n = (k : Str) → (get n k ≡ get m k) ⊎ C k

pub put-OnlyChanges :
    (C : Str → Type 0) (m n : Map Bytes) (j : Str) (v : Bytes)
    → OnlyChanges C m n
    → C j
    → OnlyChanges C m (put n j v)
put-OnlyChanges C m n j v h c k = elim (Bool-cases (str_eq j k)) [
  | inl same ↦ inr (subst C ((str_eq_iff j k).0 same) c)
  | inr other ↦ elim (h k) [
    | inl kept ↦ inl (rw (get-put n j k v) (rw other kept))
    | inr changed ↦ inr changed
  ]
]

abbrev pub Edits : (Str → Type 0) → Map Bytes → Transaction → Type 0
Edits C m t = OnlyChanges C m t.tx_data

pub put_value-Edits :
    {A : Type 0} (C : Str → Type 0) (m : Map Bytes) (json : Codec A) (kind name : Str) (a : A)
    → C (request kind name)
    → (t : Transaction) → Edits C m t
    → Post (λ u t'. Edits C m t') (put_value json kind name a t)
unfolding put_value tx_put
put_value-Edits C m json kind name a c t h =
    Post-read (λ u t'. Edits C m t') _ t _
      λ raw e. put-OnlyChanges C m t.tx_data (request kind name) raw h c

pub put_value-active :
    {A : Type 0} (json : Codec A) (kind name : Str) (a : A)
    → Keeps (λ t. t.active ≡ true) (put_value json kind name a)
unfolding put_value tx_put
put_value-active json kind name a = Keeps-bind (λ t. t.active ≡ true) _ _ (λ s h. h) λ raw s h. h

pub append_update_log-Edits :
    (C : Str → Type 0) (m : Map Bytes) (log : Str)
    → C request_update_log
    → (t : Transaction) → Edits C m t
    → Post (λ u t'. Edits C m t') (append_update_log log t)
unfolding append_update_log put_update_log tx_put
append_update_log-Edits C m log c t h =
    Post-read (λ u t'. Edits C m t') _ t _
      λ old e. put-OnlyChanges C m t.tx_data request_update_log (old ++ log) h c

pub append_update_log-active : (log : Str) → Keeps (λ t. t.active ≡ true) (append_update_log log)
unfolding append_update_log put_update_log tx_put
append_update_log-active log = Keeps-bind (λ t. t.active ≡ true) _ _ (λ s h. h) λ raw s h. h

-- what holds of every key that is set holds of the entries of the list
pub All-entries :
    {V : Type 0} (Q : Str → Type 0) (m : Map V)
    → ((k : Str) (v : V) → get m k ≡ some v → Q k)
    → All (λ x. Q x.0) m
unfolding get
All-entries Q [] h = tt
All-entries {V} Q ((k, v) ∷ m) h = (
  h k v (ground (arith, str_eq_iff k k)),
  All-entries Q m λ j w g. either j w g (Bool-cases (str_eq k j)),
)
  where
    either :
        (j : Str) (w : V) → get m j ≡ some w → ((str_eq k j ≡ true) ⊎ (str_eq k j ≡ false)) → Q j
    either j w g (inl same) = h j v (rw same refl)
    either j w g (inr other) = h j w (rw other g)
