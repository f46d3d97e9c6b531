-- ===== src/Core/States.antt =====
-- The states of the coordinator: requireState, advanceState and getStatus of coordinator/core/core.go.
pub mod Required
pub mod Advanced
pub mod Tests
use marblerun.Seal.Aes.{unseal}
use marblerun.Core.Certs.{generate_quote}
use marblerun.Base.{
  Bool, List, [], errorf, false, if◌then◌else◌, panic, true, ◌&&◌, ◌∷◌, Result, String, err, ok,
  Bytes, deadlock, none, some, not, status,
}
use marblerun.Core.Getters.{get_state}
use marblerun.Core.Putters.{put_state}
use marblerun.Strconv.{int_eq, int_lt, pos, ℤ}
use marblerun.Base.Exec.{Exec, ◌>>=◌, pure, lift, fail}
use marblerun.Core.{Core, stored, on_entropy}
use marblerun.Services.{Services}
use marblerun.Recovery.{Recovery}
use marblerun.Store.{Sealer, Transaction}

-- the constants of type state
abbrev pub state_uninitialized : ℤ
state_uninitialized = pos 0

abbrev pub state_recovery : ℤ
state_recovery = pos 1

abbrev pub state_accepting_manifest : ℤ
state_accepting_manifest = pos 2

abbrev pub state_accepting_marbles : ℤ
state_accepting_marbles = pos 3

abbrev pub state_max : ℤ
state_max = pos 4

-- the loop of requireState
unfoldable pub one_of : List ℤ → ℤ → Bool
one_of [] current = false
one_of (s ∷ states) current = if int_eq s current then true else one_of states current

-- advanceState
unfoldable pub advance_state : ℤ → Exec Transaction (Unit {0})
advance_state new_state = do
  current ← (λ t. (get_state t.tx_data, t))
  if int_lt current new_state && int_lt new_state state_max
      then put_state new_state
      else lift (panic "cannot advance")

-- the switch of getStatus
status_text : ℤ → Result (ℤ × String)
status_text s =
    if int_eq s state_recovery
    then ok (
      s,
      "Coordinator is in recovery mode. Either upload a key to unseal the saved state, or set a new manifest. For more information on how to proceed, consult the documentation.",
    )
    else if int_eq s state_accepting_manifest
    then ok (s, "Coordinator is ready to accept a manifest.")
    else if int_eq s state_accepting_marbles
    then ok (s, "Coordinator is running correctly and ready to accept marbles.")
    else err (errorf "cannot determine coordinator status" [])

module _ {sl : Sealer} {rc : Recovery} {ext : Services} where
  -- requireState
  unfoldable pub require_state : List ℤ → Exec (Core sl rc ext) (Unit {0})
  unfolding one_of
  require_state states = do
    current ← (λ c. (get_state (stored c), c))
    if one_of states current then pure tt else fail (errorf "server is not in expected state" [])

  -- getStatus; -1 and a text stand beside an error
  unfoldable pub get_status : Exec (Core sl rc ext) (ℤ × String)
  unfolding status_text
  get_status = do current ← (λ c. (get_state (stored c), c)); lift (status_text current)

  -- `c.quote, err = c.generateQuote(cert)`: an error sets the quote to nil
  keep_quote : Result Bytes × Core sl rc ext → Result (Unit {0}) × Core sl rc ext
  keep_quote (ok quote, c) = (ok tt, record c { quote = some quote })
  keep_quote (err e, c) = (err e, record c { quote = none })
  keep_quote (panic m, c) = (panic m, c)
  keep_quote (deadlock, c) = (deadlock, c)

  unfoldable pub refresh_quote : Bytes → Exec (Core sl rc ext) (Unit {0})
  unfolding keep_quote
  refresh_quote cert c = keep_quote (on_entropy (generate_quote ext cert) c)
