-- ===== src/Tests/Clients.antt =====
-- Runs of the registry of attached clients.
use tymux.Base.{ℕ, true, false, ◌≡◌, ◌↔◌, refl, List, [], ◌∷◌}
use tymux.Clients.{has_answerer, register, go_live_after, set_lagged, release}
use tymux.Clients.Answering.{Op, attach, live, lag, detach, after}
use tymux.Clients.History.{Sees, has_answerer-Sees}

-- Newest first: two clients attach, both go live at 4, one leaves, a third attaches, the second lags and
-- catches up.
abbrev attached : List Op
attached = lag 1 false ∷ lag 1 true ∷ attach ∷ detach 0 ∷ live 1 4 ∷ live 0 4 ∷ attach ∷ attach ∷ []

answered : has_answerer (after attached) 5 ≡ true
unfolding has_answerer register go_live_after set_lagged release
answered = refl

in_snapshot : has_answerer (after attached) 4 ≡ false
unfolding has_answerer register go_live_after set_lagged release
in_snapshot = refl

has_answerer-Sees_example :
    (has_answerer (after attached) 5 ≡ true) ↔ ((client : ℕ) × Sees attached 5 client)
has_answerer-Sees_example = has_answerer-Sees attached 5
