-- ===== src/Core/States/Advanced.antt =====
-- What advanceState has done when it succeeds.
use marblerun.Base.{
  Bool, arith, false, get-put_self, if◌then◌else◌, inl, ltb, ok, panic, refl, true, ℕ, ◌&&◌, ◌<◌,
  ◌≡◌, Bytes, Map, put, Result, deadlock, err, ◌↔◌,
}
use marblerun.Store.{Transaction, read, tx_put}
use marblerun.Strconv.{int_lt, itoa, pos}
use marblerun.Strconv.Roundtrip.{atoi-itoa}
use marblerun.Core.Changes.{OnlyChanges, put-OnlyChanges}
use marblerun.Core.Getters.{get_state, request_state}
use marblerun.Core.Putters.{put_state}
use marblerun.Core.States.{advance_state, ℤ, state_max}
use marblerun.Base.Exec.{lift, proceed}
use marblerun.Base.Post.{Post, Post-read}

-- The state was less than `n` and is `n` now; nothing else has changed.
abbrev pub Advances : ℕ → Transaction → Transaction → Type 0
Advances n t t' =
    ((current : ℤ) × (get_state t.tx_data ≡ ok current) × (int_lt current (pos n) ≡ true))
    × (get_state t'.tx_data ≡ ok (pos n))
    × OnlyChanges (λ k. k ≡ request_state) t.tx_data t'.tx_data

get_state-put :
    (n : ℕ) (m : Map Bytes) → n < 4 → get_state (put m request_state (itoa (pos n))) ≡ ok (pos n)
unfolding get_state read
get_state-put n m h =
    rw (get-put_self m request_state (itoa (pos n)), get_state, read) (atoi-itoa n (omega arith))

stored_state :
    (n : ℕ) (t : Transaction) (current : ℤ)
    → get_state t.tx_data ≡ ok current
    → (a b : Bool) → int_lt current (pos n) ≡ a
    → ltb n 4 ≡ b
    → Post
        (λ u t'. Advances n t t')
        ((if a && b then put_state (pos n) else lift (panic "cannot advance")) t)
unfolding put_state tx_put
stored_state n t current e true true below small = (
  (current, e, below),
  get_state-put n t.tx_data (ground (arith, small)),
  put-OnlyChanges (λ k. k ≡ request_state) t.tx_data t.tx_data request_state (itoa (pos n))
      (λ k. inl refl) refl,
)
stored_state n t current e true false below small = tt
stored_state n t current e false b below small = tt

-- If advanceState succeeds, the state was less than the new one, it reads as the new one now, and
-- no other key has changed.
pub advance_state-Advances :
    (n : ℕ) (t : Transaction) → Post (λ u t'. Advances n t t') (advance_state (pos n) t)
unfolding advance_state
advance_state-Advances n t =
    Post-read (λ u t'. Advances n t t') (get_state t.tx_data) t _
      λ current e. stored_state n t current e _ _ refl refl

decided :
    (s : ℤ) (t : Transaction) (b : Bool)
    → ((if b then put_state s else lift (panic "cannot advance")) t).0 ≡ ok tt
    → b ≡ true
decided s t true h = refl
decided s t false h = cc

advanced_from :
    (s : ℤ) (t : Transaction) (r : Result ℤ)
    → (proceed
        (r, t)
        (λ current.
          if int_lt current s && int_lt s state_max
          then put_state s
          else lift (panic "cannot advance"))).0
      ≡ ok tt
    → (current : ℤ) × (r ≡ ok current) × (int_lt current s ≡ true) × (int_lt s state_max ≡ true)
unfolding proceed
advanced_from s t (ok current) h =
    let both = decided s t (int_lt current s && int_lt s state_max) h in
    (current, refl, ground (arith, both), ground (arith, both))
advanced_from s t (err e) h = cc
advanced_from s t (panic m) h = cc
advanced_from s t deadlock h = cc

-- advanceState succeeds exactly if a state can be read that is less than the new one, and the new one
-- is less than the number of states.
pub advance_state_iff :
    (s : ℤ) (t : Transaction)
    → ((advance_state s t).0 ≡ ok tt) ↔ (
        (current : ℤ) × (get_state t.tx_data ≡ ok current)
        × (int_lt current s ≡ true)
        × (int_lt s state_max ≡ true))
unfolding advance_state put_state proceed
advance_state_iff s t = (
  λ h. advanced_from s t (get_state t.tx_data) h,
  λ (current, e, below, small). rw (e, below, small) refl,
)
