-- ===== src/Engine/Ranges.antt =====
-- crates/tymux-core/src/engine.rs: viewports in range, and the size that fits all of a window's clients.
use tymux.Base.{ℕ, ◌≡◌, ◌≤◌, some, List, [], ◌∷◌, arith, min}
use tymux.Base.Maps.{get, insert, remove}
use tymux.Layout.{min_pane_rows, min_pane_cols}
use tymux.Engine.Viewports.{
  max_pane_rows, max_pane_cols, clamp_viewport, Viewports, min_rows, min_cols, effective_size,
  clients_of,
}

-- A size that a pane can run at.
abbrev pub InRange : ℕ × ℕ → Type 0
InRange (rows, cols) =
    (min_pane_rows ≤ rows)
    × (rows ≤ max_pane_rows)
    × (min_pane_cols ≤ cols)
    × (cols ≤ max_pane_cols)

abbrev pub AllInRange : Viewports → Type 0
AllInRange [] = Unit {0}
AllInRange ((id, size) ∷ rest) = InRange size × AllInRange rest

-- Every viewport that is registered for a window is in range.
abbrev pub IsClamped : List (ℕ × Viewports) → Type 0
IsClamped [] = Unit {0}
IsClamped ((id, clients) ∷ rest) = AllInRange clients × IsClamped rest

pub clamp_viewport-InRange : (rows cols : ℕ) → InRange (clamp_viewport rows cols)
unfolding clamp_viewport
clamp_viewport-InRange rows cols = ground arith

pub insert-AllInRange :
    (clients : Viewports) (id : ℕ) (size : ℕ × ℕ)
    → AllInRange clients
    → InRange size
    → AllInRange (insert clients id size)
insert-AllInRange [] id size h k = (k, tt)
insert-AllInRange ((i, s) ∷ rest) id size h k = ground (arith, insert-AllInRange rest id size)

pub remove-AllInRange :
    (clients : Viewports) (id : ℕ) → AllInRange clients → AllInRange (remove clients id)
remove-AllInRange [] id h = tt
remove-AllInRange ((i, s) ∷ rest) id h = ground (arith, remove-AllInRange rest id)

pub insert-IsClamped :
    (views : List (ℕ × Viewports)) (id : ℕ) (clients : Viewports)
    → IsClamped views
    → AllInRange clients
    → IsClamped (insert views id clients)
insert-IsClamped [] id clients h k = (k, tt)
insert-IsClamped ((i, s) ∷ rest) id clients h k = ground (arith, insert-IsClamped rest id clients)

pub get-IsClamped :
    (views : List (ℕ × Viewports)) (id : ℕ)
    → IsClamped views
    → AllInRange (clients_of (get views id))
get-IsClamped [] id h = tt
get-IsClamped ((i, s) ∷ rest) id h = ground (arith, get-IsClamped rest id)

min_rows-le :
    (start : ℕ) (clients : Viewports)
    → (min_rows start clients ≤ start)
      × ((id : ℕ) (size : ℕ × ℕ) → get clients id ≡ some size → min_rows start clients ≤ size.0)
unfolding min_rows
min_rows-le start [] = (ground arith, λ id size k. ground (arith, k))
min_rows-le start ((i, (r, c)) ∷ rest) =
    let (below, each) = min_rows-le (min start r) rest in
    (ground (arith, below), λ id size k. ground (arith, k, below, each id size))

min_cols-le :
    (start : ℕ) (clients : Viewports)
    → (min_cols start clients ≤ start)
      × ((id : ℕ) (size : ℕ × ℕ) → get clients id ≡ some size → min_cols start clients ≤ size.1)
unfolding min_cols
min_cols-le start [] = (ground arith, λ id size k. ground (arith, k))
min_cols-le start ((i, (r, c)) ∷ rest) =
    let (below, each) = min_cols-le (min start c) rest in
    (ground (arith, below), λ id size k. ground (arith, k, below, each id size))

min_size-InRange :
    (rows cols : ℕ) (clients : Viewports)
    → InRange (rows, cols)
    → AllInRange clients
    → InRange (min_rows rows clients, min_cols cols clients)
unfolding min_rows min_cols
min_size-InRange rows cols [] h k = h
min_size-InRange rows cols ((i, (r, c)) ∷ rest) h k =
    min_size-InRange (min rows r) (min cols c) rest (ground (arith, h, k)) k.1

-- The size fits every client, and is one that a pane can run at.
pub effective_size-fits :
    (clients : Viewports)
    → AllInRange clients
    → InRange (effective_size (some clients))
      × ((id : ℕ) (size : ℕ × ℕ)
          → get clients id ≡ some size
          → ((effective_size (some clients)).0 ≤ size.0)
            × ((effective_size (some clients)).1 ≤ size.1))
unfolding effective_size
effective_size-fits [] h = (ground arith, λ id size k. ground (arith, k))
effective_size-fits ((i, (r, c)) ∷ rest) h =
    let (rows, each_rows) = min_rows-le r rest in
    let (cols, each_cols) = min_cols-le c rest in
    (
      min_size-InRange r c rest h.0 h.1,
      λ id size k.
          (ground (arith, k, rows, each_rows id size), ground (arith, k, cols, each_cols id size)),
    )
