-- ===== src/Persistence/Sessions.antt =====
-- crates/tymux-core/src/persistence.rs and the load of crates/tymux-core/src/engine.rs: a whole session
-- on disk and back.
use tymux.Base.{
  ℕ, ◌≡◌, refl, true, not, Option, none, some, List, [], ◌∷◌, ◌==◌, if◌then◌else◌, Result, ok, err,
  arith, Bool-cases, ◌>>=◌, inl, inr,
}
use tymux.Layout.{LayoutNode}
use tymux.Restart.Policy.{RestartPolicy}
use tymux.Restart.{PersistedRestartState}
use tymux.Persistence.{
  Opaque, Node, Panes, InvalidRecord, unknown_schema_version, current_schema_version,
  validate_structure, and_then, from_live, persisted_layout_to_live,
}
use tymux.Persistence.Trees.{IsFiled, to_live-from_live}
use tymux.Persistence.Checking.{HasRatios, validate_structure-from_live}

abbrev pub default_rows : ℕ
default_rows = 24

abbrev pub default_cols : ℕ
default_cols = 80

module _ (ty : Opaque) where
  open ty use {Text, F, R, default_policy, is_default}

  pub record WindowState : Type 0 where
    pub id : ℕ
    pub name : Text
    pub layout : LayoutNode R
    pub rows : ℕ
    pub cols : ℕ

  pub record SessionState : Type 0 where
    pub id : ℕ
    pub name : Text
    pub windows : List WindowState
    pub active_window_id : ℕ
    pub default_restart_policy : RestartPolicy F

  pub record PersistedWindowRecord : Type 0 where
    pub id : ℕ
    pub name : Text
    pub layout : Node ty

  pub record PersistedSessionRecord : Type 0 where
    pub schema_version : ℕ
    pub session_id : ℕ
    pub name : Text
    pub windows : List PersistedWindowRecord
    pub active_window_id : ℕ
    pub default_restart_policy : Option (RestartPolicy F)

  unfoldable pub persist_windows :
      List WindowState → Panes ty → List (ℕ × PersistedRestartState F) → List PersistedWindowRecord
  persist_windows [] panes restart = []
  persist_windows (w ∷ rest) panes restart =
      record { id = w.id; name = w.name; layout = from_live ty w.layout panes restart }
      ∷ persist_windows rest panes restart

  unfoldable pub from_session_state_with_restart :
      SessionState → Panes ty → List (ℕ × PersistedRestartState F) → PersistedSessionRecord
  from_session_state_with_restart session panes restart = record {
    schema_version = current_schema_version;
    session_id = session.id;
    name = session.name;
    windows = persist_windows session.windows panes restart;
    active_window_id = session.active_window_id;
    default_restart_policy =
        if is_default session.default_restart_policy
        then none
        else some session.default_restart_policy;
  }

  unfoldable pub validate_windows : List PersistedWindowRecord → Result (Unit {0}) InvalidRecord
  validate_windows [] = ok tt
  validate_windows (w ∷ rest) = and_then (validate_structure ty w.layout) (validate_windows rest)

  unfoldable pub validate : PersistedSessionRecord → Result (Unit {0}) InvalidRecord
  unfolding validate_windows
  validate r =
      if not (r.schema_version == current_schema_version)
      then err (unknown_schema_version r.schema_version)
      else validate_windows r.windows

  unfoldable pub load_windows :
      List PersistedWindowRecord → Panes ty → Option (List WindowState) × Panes ty
  load_windows [] panes = (some [], panes)
  load_windows (w ∷ rest) panes =
      let (layout, panes') = persisted_layout_to_live ty w.layout panes in
      let (later, panes'') = load_windows rest panes' in
      (
        layout >>= λ n. later >>= λ ws. some (
            record {
              id = w.id;
              name = w.name;
              layout = n;
              rows = default_rows;
              cols = default_cols;
            }
            ∷ ws),
        panes'',
      )

  abbrev pub policy_or_default : Option (RestartPolicy F) → RestartPolicy F
  policy_or_default none = default_policy
  policy_or_default (some p) = p

  -- The session that `load_persisted` makes of a record; the index and the supervisor come after.
  unfoldable pub load_session : PersistedSessionRecord → Panes ty → Option SessionState × Panes ty
  unfolding load_windows
  load_session r panes =
      let (windows, panes') = load_windows r.windows panes in
      (
        windows >>= λ ws. some (record {
          id = r.session_id;
          name = r.name;
          windows = ws;
          active_window_id = r.active_window_id;
          default_restart_policy = policy_or_default r.default_restart_policy;
        }),
        panes',
      )

  -- Windows with the size that a load gives them.
  abbrev pub with_default_size : List WindowState → List WindowState
  with_default_size [] = []
  with_default_size (w ∷ rest) =
      record w { rows = default_rows; cols = default_cols } ∷ with_default_size rest

  load_windows-persist_windows :
      (ws : List WindowState) (panes : Panes ty) (restart : List (ℕ × PersistedRestartState F))
      (into : Panes ty)
      → IsFiled ty panes
      → (load_windows (persist_windows ws panes restart) into).0 ≡ some (with_default_size ws)
  unfolding load_windows persist_windows
  load_windows-persist_windows [] panes restart into v = refl
  load_windows-persist_windows (w ∷ rest) panes restart into v = ground (
    arith,
    to_live-from_live ty w.layout panes restart into v,
    load_windows-persist_windows rest panes restart
        (persisted_layout_to_live ty (from_live ty w.layout panes restart) into).1 v,
  )

  -- A session that is written and loaded comes back as it was, with its ids, names, layouts and restart
  -- policy, but for the sizes of its windows, which are the default ones; if each record kept for a dead
  -- pane is that pane's, and a policy that counts as the default is the default.
  pub load_session-from_session_state :
      (s : SessionState) (panes : Panes ty) (restart : List (ℕ × PersistedRestartState F))
      (into : Panes ty)
      → IsFiled ty panes
      → (is_default s.default_restart_policy ≡ true → s.default_restart_policy ≡ default_policy)
      → (load_session (from_session_state_with_restart s panes restart) into).0
        ≡ some (record s { windows = with_default_size s.windows })
  unfolding load_session from_session_state_with_restart
  load_session-from_session_state s panes restart into v d =
      elim (Bool-cases (is_default s.default_restart_policy)) [
        | inl k ↦
            ground (arith, k, d k, load_windows-persist_windows s.windows panes restart into v)
        | inr k ↦ ground (arith, k, load_windows-persist_windows s.windows panes restart into v)
      ]

  abbrev pub HaveRatios : List WindowState → Type 0
  HaveRatios [] = Unit {0}
  HaveRatios (w ∷ rest) = HasRatios ty w.layout × HaveRatios rest

  windows_validate :
      (ws : List WindowState) (panes : Panes ty) (restart : List (ℕ × PersistedRestartState F))
      → HaveRatios ws
      → validate_windows (persist_windows ws panes restart) ≡ ok tt
  unfolding validate_windows persist_windows
  windows_validate [] panes restart h = refl
  windows_validate (w ∷ rest) panes restart h =
      rw (validate_structure-from_live ty w.layout panes restart h.0)
        (windows_validate rest panes restart h.1)

  -- What is written of a session whose ratios sum to one in every split passes the check at the next start.
  pub validate-from_session_state :
      (s : SessionState) (panes : Panes ty) (restart : List (ℕ × PersistedRestartState F))
      → HaveRatios s.windows
      → validate (from_session_state_with_restart s panes restart) ≡ ok tt
  unfolding validate from_session_state_with_restart
  validate-from_session_state s panes restart h = windows_validate s.windows panes restart h
