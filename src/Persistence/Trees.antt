-- ===== src/Persistence/Trees.antt =====
-- crates/tymux-core/src/persistence.rs: a layout tree on disk and back.
use tymux.Base.{
  ℕ, ◌≡◌, ◌∙◌, inl, inr, refl, ap, ap₂, ◌%◌, ◌^◌, Bool, true, false, Option, none, some, List, [],
  ◌∷◌, if◌then◌else◌, arith, Option-cases,
}
use tymux.Base.Maps.{get, get-insert}
use tymux.Layout.{LayoutNode, contains}
use tymux.Restart.{PersistedRestartState}
use tymux.Persistence.{
  Opaque, PersistedPaneRecord, LivePane, PaneEntry, or_kept, live, dead, leaf, split, nil, cons,
  Panes, base_record, record_of, from_live, persisted_layout_to_live, children_to_live,
}

module _ (ty : Opaque) where
  open ty use {F, R}

  -- Every record on file for a dead pane is that pane's.
  abbrev pub IsFiled : Panes ty → Type 0
  IsFiled [] = Unit {0}
  IsFiled ((id, live p) ∷ rest) = IsFiled rest
  IsFiled ((id, dead kept) ∷ rest) = (kept.pane_id ≡ id) × IsFiled rest

  get-IsFiled :
      (panes : Panes ty) (id : ℕ) (kept : PersistedPaneRecord ty)
      → IsFiled panes
      → get panes id ≡ some (dead kept)
      → kept.pane_id ≡ id
  get-IsFiled [] id kept v h = ground arith
  get-IsFiled ((i, live p) ∷ rest) id kept v h = ground (arith, get-IsFiled rest id kept)
  get-IsFiled ((i, dead k) ∷ rest) id kept v h = ground (arith, get-IsFiled rest id kept)

  record_of-pane_id :
      (id : ℕ) (panes : Panes ty) (restart : List (ℕ × PersistedRestartState F))
      → IsFiled panes
      → (record_of ty id panes restart).pane_id ≡ id
  unfolding record_of base_record
  record_of-pane_id id panes restart v = elim (Option-cases (get panes id)) [
    | inl k ↦ ground (arith, k)
    | inr (live p, k) ↦ ground (arith, k)
    | inr (dead kept, k) ↦ ground (arith, k, get-IsFiled panes id kept v k)
  ]

  -- The layout comes back as it was, whatever the panes are.
  pub to_live-from_live :
      (n : LayoutNode R) (panes : Panes ty) (restart : List (ℕ × PersistedRestartState F))
      (into : Panes ty)
      → IsFiled panes
      → (persisted_layout_to_live ty (from_live ty n panes restart) into).0 ≡ some n
  unfolding from_live persisted_layout_to_live children_to_live
  to_live-from_live (LayoutNode.leaf id) panes restart into v =
      ground (arith, record_of-pane_id id panes restart v)
  to_live-from_live (LayoutNode.split o a r b s) panes restart into v = ground (
    arith,
    to_live-from_live a panes restart into v,
    to_live-from_live b panes restart
        (persisted_layout_to_live ty (from_live ty a panes restart) into).1 v,
  )

  -- After loading, each leaf has the record that was written for it, and other panes are as before.
  get-to_live :
      (n : LayoutNode R) (panes : Panes ty) (restart : List (ℕ × PersistedRestartState F))
      (into : Panes ty) (id : ℕ)
      → IsFiled panes
      → get (persisted_layout_to_live ty (from_live ty n panes restart) into).1 id
        ≡ (if contains n id then some (dead (record_of ty id panes restart)) else get into id)
  unfolding from_live persisted_layout_to_live children_to_live contains
  get-to_live (LayoutNode.leaf i) panes restart into id v =
      let r = record_of ty i panes restart in
      get-insert into r.pane_id id (dead r) ∙ ground (arith, record_of-pane_id i panes restart v)
  get-to_live (LayoutNode.split o a r b s) panes restart into id v =
      let middle = (persisted_layout_to_live ty (from_live ty a panes restart) into).1 in
      get-to_live b panes restart middle id v
      ∙ ground (arith, get-to_live a panes restart into id v)

  record_of-loaded :
      (id : ℕ) (panes : Panes ty) (restart : List (ℕ × PersistedRestartState F)) (after : Panes ty)
      → get after id ≡ some (dead (record_of ty id panes restart))
      → record_of ty id after [] ≡ record_of ty id panes restart
  unfolding record_of base_record
  record_of-loaded id panes restart after h = ground (arith, h)

  from_live-agree :
      (n : LayoutNode R) (panes : Panes ty) (restart : List (ℕ × PersistedRestartState F))
      (after : Panes ty)
      → ((id : ℕ)
          → contains n id ≡ true
          → get after id ≡ some (dead (record_of ty id panes restart)))
      → from_live ty n after [] ≡ from_live ty n panes restart
  unfolding from_live contains
  from_live-agree (LayoutNode.leaf id) panes restart after h =
      ap leaf (record_of-loaded id panes restart after (h id (ground arith)))
  from_live-agree (LayoutNode.split o a r b s) panes restart after h =
      ap₂ (λ x y. split o (cons x r (cons y s nil)))
        (from_live-agree a panes restart after (λ id k. h id (ground (arith, k))))
        (from_live-agree b panes restart after (λ id k. h id (ground (arith, k))))

  from_live_again :
      (n : LayoutNode R) (panes : Panes ty) (restart : List (ℕ × PersistedRestartState F))
      (into : Panes ty)
      → IsFiled panes
      → from_live ty n (persisted_layout_to_live ty (from_live ty n panes restart) into).1 []
        ≡ from_live ty n panes restart
  from_live_again n panes restart into v =
      from_live-agree n panes restart
        (persisted_layout_to_live ty (from_live ty n panes restart) into).1
        (λ id k. get-to_live n panes restart into id v ∙ ground (arith, k))

  -- What a record keeps of a pane: of a live one what it answers and the restart state that is given; of
  -- a dead one all its record, where a restart state that is given takes the place of the one on file; of
  -- a pane that is not known the id.
  pub data Keeps (id : ℕ) (r : PersistedPaneRecord ty)
      : Option (PaneEntry ty) → Option (PersistedRestartState F) → Type 0 where
    of_live :
        (p : LivePane ty) (state : Option (PersistedRestartState F))
        → r.pane_id ≡ id
        → r.command ≡ p.command
        → r.cwd ≡ p.cwd
        → r.rows ≡ p.size_rows % 2 ^ 16
        → r.cols ≡ p.size_cols % 2 ^ 16
        → r.exit_code ≡ p.exit_code
        → r.launch ≡ p.launch
        → r.restart ≡ state
        → Keeps id r (some (live p)) state
    of_dead :
        (kept : PersistedPaneRecord ty)
        → kept.pane_id ≡ id
        → r ≡ kept
        → Keeps id r (some (dead kept)) none
    of_supervised :
        (kept : PersistedPaneRecord ty) (s : PersistedRestartState F)
        → kept.pane_id ≡ id
        → r ≡ record kept { restart = some s }
        → Keeps id r (some (dead kept)) (some s)
    of_unknown :
        (state : Option (PersistedRestartState F))
        → r.pane_id ≡ id
        → r.restart ≡ state
        → Keeps id r none state

  record_of-Keeps :
      (id : ℕ) (panes : Panes ty) (restart : List (ℕ × PersistedRestartState F))
      → IsFiled panes
      → Keeps id (record_of ty id panes restart) (get panes id) (get restart id)
  unfolding record_of base_record
  record_of-Keeps id panes restart v =
      record_cases (get panes id) (get restart id) (λ kept k. get-IsFiled panes id kept v k)
    where
      record_cases :
          (entry : Option (PaneEntry ty)) (state : Option (PersistedRestartState F))
          → ((kept : PersistedPaneRecord ty) → entry ≡ some (dead kept) → kept.pane_id ≡ id)
          → Keeps id
              (record (base_record ty id entry) {
                restart = or_kept ty state (base_record ty id entry).restart;
              })
              entry
              state
      record_cases (some (live p)) none own = of_live p none refl refl refl refl refl refl refl refl
      record_cases (some (live p)) (some s) own =
          of_live p (some s) refl refl refl refl refl refl refl refl
      record_cases (some (dead kept)) none own = of_dead kept (own kept refl) refl
      record_cases (some (dead kept)) (some s) own = of_supervised kept s (own kept refl) refl
      record_cases none none own = of_unknown none refl refl
      record_cases none (some s) own = of_unknown (some s) refl refl

  -- What a pane is after a tree has been written and loaded, by whether it is a leaf of the tree.
  abbrev pub IsRestored :
      Panes ty → List (ℕ × PersistedRestartState F) → Panes ty → Panes ty → ℕ → Bool → Type 0
  IsRestored panes restart into after id false = get after id ≡ get into id
  IsRestored panes restart into after id true =
      (r : PersistedPaneRecord ty) × (get after id ≡ some (dead r))
      × Keeps id r (get panes id) (get restart id)

  -- A tree that was written comes back when it is loaded, with the same orientations, panes and ratios.
  -- Each of its panes is then filed as dead with a record that keeps what was known of it: command,
  -- directory, size (as u16), exit code, launch and restart state, if each record kept for a dead pane is
  -- that pane's. Panes that are not in the tree are as before. Written again, with no supervision state,
  -- the tree is the same on disk.
  pub from_live-IsRestored :
      (n : LayoutNode R) (panes : Panes ty) (restart : List (ℕ × PersistedRestartState F))
      (into : Panes ty)
      → IsFiled panes
      → let (tree, after) = persisted_layout_to_live ty (from_live ty n panes restart) into in
        (tree ≡ some n)
        × ((id : ℕ) → IsRestored panes restart into after id (contains n id))
        × (from_live ty n after [] ≡ from_live ty n panes restart)
  from_live-IsRestored n panes restart into v = (
    to_live-from_live n panes restart into v,
    (λ id. restored id (contains n id) refl),
    from_live_again n panes restart into v,
  )
    where
      restored :
          (id : ℕ) (b : Bool)
          → contains n id ≡ b
          → IsRestored panes restart into
              (persisted_layout_to_live ty (from_live ty n panes restart) into).1
              id
              b
      restored id true k = (
        record_of ty id panes restart,
        get-to_live n panes restart into id v ∙ ground (arith, k),
        record_of-Keeps id panes restart v,
      )
      restored id false k = get-to_live n panes restart into id v ∙ ground (arith, k)
