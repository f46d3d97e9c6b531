-- ===== src/Core/Activation/Counted.antt =====
-- What an activation does to the store.
use marblerun.Strconv.Roundtrip.{parse_hex-format_hex}
use marblerun.Core.Transactions.{on_tx}
use marblerun.Core.Transactions.Edits.{on_tx-IsOpen, on_tx-Post}
use marblerun.Core.Transactions.Atomic.{IsIdle, begun}
use marblerun.Core.Activation.Parameters.{RpcParameters}
use marblerun.Core.States.Required.{require_state-KeepsIdle, require_state-ok}
use marblerun.Core.Activation.{ActivationReq}
use marblerun.Core.Activation.Activate.{accepting_marbles, activate, or_status}
use marblerun.Core.Transactions.Outcome.{Outcome, Outcome-bind, Outcome-pure, Outcome-transaction}
use marblerun.Manifest.{Certificate, Marble}
use marblerun.Base.{
  Bytes, Map, Str, arith, ok, put, true, ◌%◌, ◌+◌, ◌^◌, ◌≡◌, Option, false, Result, [], deadlock,
  err, failed_precondition, panic, refl, ◌∷◌, subst, ◌<◌, ◌≤◌, ap, get-put_self, sym, ℕ, ◌∙◌,
}
use marblerun.Core.Activation.Budget.{
  HasBudget, prepare_response-HasBudget, prepare_response-KeepsIdle, activations,
}
use marblerun.Core.Getters.{
  get_state, request, request_activations, get_activations, unset_as_zero, get_marble,
}
use marblerun.Core.Putters.{increment_activations, put_activations}
use marblerun.Core.States.{require_state, state_accepting_marbles}
use marblerun.Strconv.{format_hex, max_uint}
use marblerun.Base.Exec.{proceed}
use marblerun.Base.Post.{Post, Post-mono, Post-use}
use marblerun.Base.Keeps.{Keeps, Keeps-bind}
use marblerun.Core.{Core, stored}
use marblerun.Services.{Services}
use marblerun.Recovery.{Recovery}
use marblerun.Store.{Sealer, Transaction, tx_put, read}

-- A marble of the type was admitted: the coordinator was accepting marbles, the budget was not used
-- up, and the counter of the type is one higher in the new data, where nothing else has changed.
pub record Admitted (ext : Services) (marble_type : Str) (m m' : Map Bytes) : Type 0 where
  pub ready : get_state m ≡ ok state_accepting_marbles
  pub budget : HasBudget ext m marble_type
  pub counted :
      m'
      ≡ put m (request request_activations marble_type) (format_hex ((budget.count + 1) % 2 ^ 64))

increment_activations-Post :
    (ext : Services) (m : Map Bytes) (marble_type : Str) (t : Transaction)
    → (b : HasBudget ext m marble_type) → t.tx_data ≡ m
    → Post
        (λ u t'.
          t'.tx_data
          ≡ put m (request request_activations marble_type) (format_hex ((b.count + 1) % 2 ^ 64)))
        (increment_activations marble_type t)
unfolding increment_activations put_activations proceed tx_put
increment_activations-Post ext m marble_type t b e = ground (arith, b.counted)

increment_activations-Keeps :
    (marble_type : Str) → Keeps (λ t. t.active ≡ true) (increment_activations marble_type)
unfolding increment_activations put_activations tx_put
increment_activations-Keeps marble_type =
    Keeps-bind (λ t. t.active ≡ true) _ _ (λ s h. h) λ n s h. h

module _ {sl : Sealer} {rc : Recovery} {ext : Services} where
  -- the first lines of Activate
  accepting_marbles-KeepsIdle :
      (m : Map Bytes) → Keeps (IsIdle m) (accepting_marbles {sl = sl} {rc = rc} {ext = ext})
  unfolding accepting_marbles
  accepting_marbles-KeepsIdle m s i = require_state-KeepsIdle (state_accepting_marbles ∷ []) m s i

  ready-Post :
      (c : Core sl rc ext)
      → Post (λ u c'. get_state (stored c) ≡ ok state_accepting_marbles) (accepting_marbles c)
  unfolding accepting_marbles
  ready-Post c =
      passed_on (require_state (state_accepting_marbles ∷ []) c)
        (require_state-ok state_accepting_marbles c)
    where
      passed_on :
          (r : Result (Unit {0}) × Core sl rc ext)
          → Post (λ u c'. get_state (stored c) ≡ ok state_accepting_marbles) r
          → Post
              (λ u c'. get_state (stored c) ≡ ok state_accepting_marbles)
              (or_status failed_precondition "cannot accept marbles in current state" r.0, r.1)
      passed_on (ok u, s) h = h
      passed_on (err e, s) h = tt
      passed_on (panic x, s) h = tt
      passed_on (deadlock, s) h = tt

  counting :
      (marble_type : Str) (m : Map Bytes) (s : Core sl rc ext)
      → IsIdle m s
      → get_state m ≡ ok state_accepting_marbles
      → HasBudget ext m marble_type
      → Post
          (λ u t. Admitted ext marble_type m t.1.tx_data)
          (on_tx (increment_activations marble_type) (begun s))
  counting marble_type m s i ready budget =
      on_tx-Post (λ t. Admitted ext marble_type m t.tx_data) (increment_activations marble_type)
        (begun s)
        (Post-mono
          (λ u t.
            t.tx_data
            ≡ put m (request request_activations marble_type)
                (format_hex ((budget.count + 1) % 2 ^ 64)))
          (λ u t. Admitted ext marble_type m t.tx_data) _
          (increment_activations-Post ext m marble_type (begun s).1 budget i.1)
          λ u t e. record { ready = ready; budget = budget; counted = e })

  -- Whatever the request, Activate leaves the lock free if it was free. If it returns parameters,
  -- the coordinator was accepting marbles, the budget of the type was not used up, and the counter
  -- of the type is the one change of the data; if it does not, no data have changed.
  pub activate-Outcome :
      (cert : Option Certificate) (req : ActivationReq) (c : Core sl rc ext)
      → c.disk.store.locked ≡ false
      → Outcome (λ params. Admitted ext req.marble_type (stored c)) (stored c) (activate cert req c)
  unfolding activate
  activate-Outcome cert req c free =
      let P : RpcParameters → Map Bytes → Type 0 =
        λ params. Admitted ext req.marble_type (stored c) in
      Outcome-bind P (stored c) _ _ (accepting_marbles-KeepsIdle (stored c) c (free, refl))
        λ u s e i.
          let ready =
            Post-use (λ u c'. get_state (stored c) ≡ ok state_accepting_marbles) _ (ready-Post c)
              e in
          Outcome-bind P (stored c) _ _ (prepare_response-KeepsIdle cert req (stored c) s i)
            λ params s' e' i'.
              let budget =
                Post-use (λ r c'. HasBudget ext (stored s) req.marble_type) _
                  (prepare_response-HasBudget cert req s) e' in
              Outcome-pure P (stored c) params _ (
                Outcome-transaction (λ m'. Admitted ext req.marble_type (stored c) m') (stored c) s'
                  (on_tx (increment_activations req.marble_type)) i'
                  (on_tx-IsOpen (stored c) (increment_activations req.marble_type)
                    (increment_activations-Keeps req.marble_type))
                  (counting req.marble_type (stored c) s' i' ready
                    (subst (λ m. HasBudget ext m req.marble_type) i.1 budget)))

activations-put :
    (m : Map Bytes) (marble_type : Str) (n : ℕ)
    → n ≤ max_uint
    → activations (put m (request request_activations marble_type) (format_hex n)) marble_type
      ≡ ok n
unfolding get_activations read unset_as_zero
activations-put m marble_type n h = ground (
  arith,
  get-put_self m (request request_activations marble_type) (format_hex n),
  parse_hex-format_hex n h,
)

same_ok : {A : Type 0} {a b : A} → ◌≡◌ {A = Result A} (ok a) (ok b) → a ≡ b
same_ok e = cc

wrapped : (n : ℕ) → n < 2 ^ 64 → n % 2 ^ 64 ≡ n
wrapped n h = omega arith

-- the counter that an activation leaves
pub Admitted-within :
    (ext : Services) (marble_type : Str) (m m' : Map Bytes) (a : Admitted ext marble_type m m')
    → 0 < a.budget.marble.max_activations
    → a.budget.marble.max_activations < 2 ^ 64
    → (activations m' marble_type ≡ ok (a.budget.count + 1))
      × (a.budget.count + 1 ≤ a.budget.marble.max_activations)
Admitted-within ext marble_type m m' a limited small =
    let limit : a.budget.count + 1 ≤ a.budget.marble.max_activations =
      omega (arith, a.budget.within) in
    let n : ℕ = a.budget.count + 1 in
    let same : m' ≡ put m (request request_activations marble_type) (format_hex n) =
      a.counted
      ∙ ap (λ k. put m (request request_activations marble_type) (format_hex k))
          (wrapped n (omega arith)) in
    (
      subst (λ x. activations x marble_type ≡ ok n) (sym same)
          (activations-put m marble_type n (omega arith)),
      limit,
    )

-- A limited budget is never exceeded: if Activate returns parameters for a marble type with a
-- maximum of less than 2^64, the counter was below the maximum and is one higher afterwards; the
-- lock has to be free before.
pub activate-counts :
    {sl : Sealer} {rc : Recovery} {ext : Services} (cert : Option Certificate) (req : ActivationReq)
    (c : Core sl rc ext) (marble : Marble) (params : RpcParameters)
    → c.disk.store.locked ≡ false
    → get_marble ext (stored c) req.marble_type ≡ ok marble
    → 0 < marble.max_activations
    → marble.max_activations < 2 ^ 64
    → (activate cert req c).0 ≡ ok params
    → (n : ℕ) × (activations (stored c) req.marble_type ≡ ok n)
      × (activations (stored (activate cert req c).1) req.marble_type ≡ ok (n + 1))
      × (n < marble.max_activations)
activate-counts {ext} cert req c marble params free known limited small e =
    let a : Admitted ext req.marble_type (stored c) (stored (activate cert req c).1) =
      (activate-Outcome cert req c free).done params e in
    let same : marble ≡ a.budget.marble = same_ok (sym known ∙ a.budget.known) in
    let (after, within) =
      Admitted-within ext req.marble_type (stored c) (stored (activate cert req c).1) a
        (subst (λ m. 0 < m.max_activations) same limited)
        (subst (λ m. m.max_activations < 2 ^ 64) same small) in
    (
      a.budget.count,
      a.budget.counted,
      after,
      subst (λ m. a.budget.count < m.max_activations) (sym same) (omega (arith, within)),
    )
