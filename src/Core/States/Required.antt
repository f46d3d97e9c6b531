-- ===== src/Core/States/Required.antt =====
-- What requireState has found when it succeeds, and that it only reads.
use marblerun.Base.{
  Bool, Bytes, List, Map, [], ap, arith, errorf, false, if◌then◌else◌, ok, refl, sym, true, ◌∙◌,
  ◌∷◌, ◌≡◌,
}
use marblerun.Core.Getters.{get_state}
use marblerun.Core.States.{one_of, require_state}
use marblerun.Core.Transactions.Atomic.{IsIdle}
use marblerun.Base.Exec.{pure, fail}
use marblerun.Base.Post.{Post, Post-read, Post-mono}
use marblerun.Base.Keeps.{Keeps, Keeps-bind}
use marblerun.Core.{Core, stored}
use marblerun.Strconv.{ℤ, pos, negsuc, int_eq}
use marblerun.Services.{Services}
use marblerun.Recovery.{Recovery}
use marblerun.Store.{Sealer}

pub int_eq_sound : (a b : ℤ) → int_eq a b ≡ true → a ≡ b
int_eq_sound (pos a) (pos b) e = ground (arith, e)
int_eq_sound (pos a) (negsuc b) e = cc
int_eq_sound (negsuc a) (pos b) e = cc
int_eq_sound (negsuc a) (negsuc b) e = ground (arith, e)

only_one : (s current : ℤ) → one_of (s ∷ []) current ≡ true → int_eq s current ≡ true
unfolding one_of
only_one s current h = ground arith

module _ {sl : Sealer} {rc : Recovery} {ext : Services} where
  decide :
      (m : Map Bytes) (b : Bool)
      → Keeps
          (IsIdle {sl = sl} {rc = rc} {ext = ext} m)
          (if b then pure tt else fail (errorf "server is not in expected state" []))
  decide m true s h = h
  decide m false s h = h

  pub require_state-KeepsIdle :
      (states : List ℤ) (m : Map Bytes)
      → Keeps (IsIdle m) (require_state {sl = sl} {rc = rc} {ext = ext} states)
  unfolding require_state
  require_state-KeepsIdle states m =
      Keeps-bind (IsIdle m) _ _ (λ s h. h) λ current. decide m (one_of states current)

  -- the state in which an operation runs
  pub require_state-one_of :
      (states : List ℤ) (c : Core sl rc ext)
      → Post
          (λ u c'. (s : ℤ) × (get_state (stored c) ≡ ok s) × (one_of states s ≡ true))
          (require_state states c)
  unfolding require_state
  require_state-one_of states c =
      Post-read (λ u c'. (s : ℤ) × (get_state (stored c) ≡ ok s) × (one_of states s ≡ true)) _ c _
        λ current e. decide current e (one_of states current) refl
    where
      decide :
          (current : ℤ)
          → get_state (stored c) ≡ ok current
          → (b : Bool) → one_of states current ≡ b
          → Post
              (λ u c'. (s : ℤ) × (get_state (stored c) ≡ ok s) × (one_of states s ≡ true))
              ((if b then pure tt else fail (errorf "server is not in expected state" [])) c)
      decide current e true h = (current, e, h)
      decide current e false h = tt

  pub require_state-ok :
      (s : ℤ) (c : Core sl rc ext)
      → Post (λ u c'. get_state (stored c) ≡ ok s) (require_state (s ∷ []) c)
  require_state-ok s c =
      Post-mono (λ u c'. (t : ℤ) × (get_state (stored c) ≡ ok t) × (one_of (s ∷ []) t ≡ true))
        (λ u c'. get_state (stored c) ≡ ok s) _ (require_state-one_of (s ∷ []) c)
        λ u c' (current, e, h). e ∙ ap ok (sym (int_eq_sound s current (only_one s current h)))
