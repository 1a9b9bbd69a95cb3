-- ===== src/Persistence.antt =====
-- crates/tymux-core/src/persistence.rs: the record of a session on disk, what is written of a live
-- session, and what is made of a record when the daemon starts. Text, launch specs and ratios are
-- parameters, as is whether a policy is the default; serde and the files are left out.
pub mod Trees
pub mod Checking
pub mod Sessions
use tymux.Base.{
  ℕ, zero, suc, ◌%◌, ◌^◌, Bool, true, false, not, Option, none, some, List, [], ◌∷◌, ◌++◌, ◌==◌,
  if◌then◌else◌, ◌>>=◌, map, Result, ok, err,
}
use tymux.Base.Maps.{get, insert}
use tymux.Layout.{LayoutNode, Orientation}
use tymux.Layout
use tymux.Restart.Policy.{RestartPolicy}
use tymux.Restart.{PersistedRestartState}

abbrev pub current_schema_version : ℕ
current_schema_version = 1

-- The types that the code does not look into: text, a launch spec, `f64` and `f32`, with the empty
-- text, the empty launch and the default policy.
pub record Opaque : Type 1 where
  pub Text : Type 0
  pub Launch : Type 0
  pub F : Type 0
  pub R : Type 0
  pub empty_text : Text
  pub empty_launch : Launch
  pub default_policy : RestartPolicy F
  pub is_default : RestartPolicy F → Bool
  -- `0.0 + first + second`, `- 1.0`, `abs()` and `> 0.01` of `f32`.
  pub is_off_one : R → R → Bool

module _ (ty : Opaque) where
  open ty use {Text, Launch, F}

  pub record PersistedPaneRecord : Type 0 where
    pub pane_id : ℕ
    pub command : Text
    pub cwd : Text
    pub rows : ℕ
    pub cols : ℕ
    pub exit_code : Option ℕ
    pub launch : Launch
    pub restart : Option (PersistedRestartState F)

  -- What a live pane is asked for when it is persisted; its size is two `u32`.
  pub record LivePane : Type 0 where
    pub command : Text
    pub cwd : Text
    pub size_rows : ℕ
    pub size_cols : ℕ
    pub exit_code : Option ℕ
    pub launch : Launch

  pub data PaneEntry : Type 0 where
    live : LivePane → PaneEntry
    dead : PersistedPaneRecord → PaneEntry

mutual
  pub data PersistedLayoutNode (X R : Type 0) : Type 0 where
    leaf : X → PersistedLayoutNode X R
    split : Orientation → Children X R → PersistedLayoutNode X R

  pub data Children (X R : Type 0) : Type 0 where
    nil : Children X R
    cons : PersistedLayoutNode X R → R → Children X R → Children X R

pub data InvalidRecord : Type 0 where
  children_count : ℕ → InvalidRecord
  ratio_sum : InvalidRecord
  unknown_schema_version : ℕ → InvalidRecord

module _ {X R : Type 0} where
  abbrev pub count_children : Children X R → ℕ
  count_children nil = 0
  count_children (cons c r rest) = suc (count_children rest)

  abbrev pub ratios_off : (R → R → Bool) → Children X R → Bool
  ratios_off off (cons c r (cons d s nil)) = off r s
  ratios_off off _ = false

abbrev pub and_then :
    Result (Unit {0}) InvalidRecord
    → Result (Unit {0}) InvalidRecord
    → Result (Unit {0}) InvalidRecord
and_then (ok u) r = r
and_then (err e) r = err e

-- The children of a `Split` of layout.rs, which has two; no other count can be told apart later.
abbrev pub pair_up :
    {R : Type 0} → Orientation → List (Option (LayoutNode R) × R) → Option (LayoutNode R)
pair_up o ((some a, r) ∷ (some b, s) ∷ []) = some (LayoutNode.split o a r b s)
pair_up o _ = none

module _ (ty : Opaque) where
  open ty use {F, R, empty_text, empty_launch, default_policy, is_default, is_off_one}

  abbrev pub Node : Type 0
  Node = PersistedLayoutNode (PersistedPaneRecord ty) R

  abbrev pub Nodes : Type 0
  Nodes = Children (PersistedPaneRecord ty) R

  abbrev pub Panes : Type 0
  Panes = List (ℕ × PaneEntry ty)

  unfoldable mutual
    pub validate_structure : Node → Result (Unit {0}) InvalidRecord
    validate_structure (leaf pane) = ok tt
    validate_structure (split o children) =
        let rest = validate_children children in
        if not (count_children children == 2)
        then err (children_count (count_children children))
        else if ratios_off is_off_one children
        then err ratio_sum
        else rest

    pub validate_children : Nodes → Result (Unit {0}) InvalidRecord
    validate_children nil = ok tt
    validate_children (cons child r rest) =
        and_then (validate_structure child) (validate_children rest)

  -- The record of one pane.
  unfoldable pub base_record : ℕ → Option (PaneEntry ty) → PersistedPaneRecord ty
  base_record id (some (live p)) = record {
    pane_id = id;
    command = p.command;
    cwd = p.cwd;
    rows = p.size_rows % 2 ^ 16;
    cols = p.size_cols % 2 ^ 16;
    exit_code = p.exit_code;
    launch = p.launch;
    restart = none;
  }
  base_record id (some (dead kept)) = kept
  base_record id none = record {
    pane_id = id;
    command = empty_text;
    cwd = empty_text;
    rows = 0;
    cols = 0;
    exit_code = none;
    launch = empty_launch;
    restart = none;
  }

  abbrev pub or_kept :
      Option (PersistedRestartState F)
      → Option (PersistedRestartState F)
      → Option (PersistedRestartState F)
  or_kept none kept = kept
  or_kept (some s) kept = some s

  unfoldable pub record_of : ℕ → Panes → List (ℕ × PersistedRestartState F) → PersistedPaneRecord ty
  unfolding base_record
  record_of id panes restart =
      let base = base_record id (get panes id) in
      record base { restart = or_kept (get restart id) base.restart }

  unfoldable pub from_live : LayoutNode R → Panes → List (ℕ × PersistedRestartState F) → Node
  from_live (LayoutNode.leaf id) panes restart = leaf (record_of id panes restart)
  from_live (LayoutNode.split o a r b s) panes restart =
      split o (cons (from_live a panes restart) r (cons (from_live b panes restart) s nil))

  -- `none` if a `Split` has not two children, which `validate_structure` refuses.
  unfoldable mutual
    pub persisted_layout_to_live : Node → Panes → Option (LayoutNode R) × Panes
    persisted_layout_to_live (leaf pane) panes =
        (some (LayoutNode.leaf pane.pane_id), insert panes pane.pane_id (dead pane))
    persisted_layout_to_live (split o children) panes =
        let (nodes, panes') = children_to_live children panes in (pair_up o nodes, panes')

    pub children_to_live : Nodes → Panes → List (Option (LayoutNode R) × R) × Panes
    children_to_live nil panes = ([], panes)
    children_to_live (cons child r rest) panes =
        let (node, panes') = persisted_layout_to_live child panes in
        let (nodes, panes'') = children_to_live rest panes' in ((node, r) ∷ nodes, panes'')
