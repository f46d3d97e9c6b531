-- ===== src/Core/States/Tests.antt =====
-- A coordinator that goes from accepting a manifest to accepting marbles.
use marblerun.Base.{[], codes, true, ◌∷◌}
use marblerun.Core.States.{advance_state}
use marblerun.Store.{Transaction}
use marblerun.Strconv.{pos}
use marblerun.Base.Post.{Post}
use marblerun.Core.States.Advanced.{Advances, advance_state-Advances}

abbrev accepting_manifest : Transaction
accepting_manifest = record { tx_data = (codes "state", codes "2") ∷ []; active = true }

advance_state-Advances_example :
    Post (λ u t'. Advances 3 accepting_manifest t') (advance_state (pos 3) accepting_manifest)
advance_state-Advances_example = advance_state-Advances 3 accepting_manifest
