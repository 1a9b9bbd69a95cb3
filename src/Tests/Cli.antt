-- ===== src/Tests/Cli.antt =====
-- Runs of the command-line client's input: the default bindings, a paste and copy mode.
use tymux.Base.{
  ℕ, ◌≡◌, refl, Bool, true, false, ◌&&◌, none, some, [], ◌∷◌, ◌==◌, if◌then◌else◌, not, arith,
}
use tymux.Base.Bytes.{Bytes, bytes_eq}
use tymux.Cli.{
  detach, KeyEvent, KeystrokeReassembler, forward, action, normal, in_paste, with_scan,
  classify_byte, process, process_in, handle_normal_byte, arms, forwarded,
}
use tymux.Cli.Pasting.{whole_paste, Pasted, process-Pasted}
use tymux.Cli.Typing.{Typed, process-Typed, idle, held_bytes}
use tymux.Cli.CopyMode
use tymux.Cli.CopyMode.{
  CopyModeState, IsOnGrid, handle_bytes, handle_bytes-IsOnGrid, extract_selection,
  extract_selection_comm,
}
use tymux.Cli.Config.{
  RawConfig, TymuxConfig, IsWhitespace, bindable_actions, bound_actions, actions_of, from_toml_str,
  from_toml_str-actions,
}

abbrev bool_eq : Bool → Bool → Bool
bool_eq true b = b
bool_eq false b = not b

abbrev same : KeyEvent → KeyEvent → Bool
same a b = (a.char == b.char) && bool_eq a.control b.control

abbrev ctrl_b : KeyEvent
ctrl_b = record { char = 98; control = true }

-- Ctrl-b and d detach.
abbrev keys : KeystrokeReassembler
keys = record {
  bindings =
      record { sequence = ctrl_b ∷ record { char = 100; control = false } ∷ []; action = detach }
      ∷ [];
  leader = ctrl_b;
  armed = none;
  scan = normal;
}

detaches : (process same keys (2 ∷ 100 ∷ [])).1 ≡ action detach ∷ []
unfolding process process_in handle_normal_byte arms classify_byte
detaches = refl

-- The cursor keys of a terminal overtake a leader that is armed.
overtaken :
    (process same keys (2 ∷ 27 ∷ 91 ∷ 65 ∷ 90 ∷ [])).1
    ≡ forward (27 ∷ 91 ∷ 65 ∷ []) ∷ forward (2 ∷ 90 ∷ []) ∷ []
unfolding process process_in handle_normal_byte arms classify_byte
overtaken = refl

process-Typed_example :
    Typed same keys
      (104 ∷ 2 ∷ 100 ∷ 2 ∷ [])
      (process same (idle same keys) (104 ∷ 2 ∷ 100 ∷ 2 ∷ [])).1
      (held_bytes same (process same (idle same keys) (104 ∷ 2 ∷ 100 ∷ 2 ∷ [])).0.armed)
process-Typed_example =
    process-Typed same keys (104 ∷ 2 ∷ 100 ∷ 2 ∷ [])
      (ground arith, (ground arith, (ground arith, (ground arith, tt))))

-- Ctrl-b, d, the end marker and a key.
abbrev pasted : Bytes
pasted = 2 ∷ 100 ∷ 27 ∷ 91 ∷ 50 ∷ 48 ∷ 49 ∷ 126 ∷ 120 ∷ []

process-Pasted_example :
    Pasted same keys [] pasted
      (process same (with_scan same keys (in_paste [])) pasted)
      (whole_paste [] pasted)
process-Pasted_example = process-Pasted same keys pasted

pasted_bytes :
    forwarded (process same (with_scan same keys (in_paste [])) pasted).1 ≡ 2 ∷ 100 ∷ 120 ∷ []
unfolding process process_in handle_normal_byte arms classify_byte forwarded
pasted_bytes = refl

handle_bytes-IsOnGrid_example :
    IsOnGrid (handle_bytes (CopyMode.new 24 80) (108 ∷ 106 ∷ 107 ∷ 107 ∷ []))
unfolding CopyMode.new
handle_bytes-IsOnGrid_example =
    handle_bytes-IsOnGrid (CopyMode.new 24 80) (108 ∷ 106 ∷ 107 ∷ 107 ∷ []) (omega arith)
      (omega arith) (record { row_lt = omega arith; col_lt = omega arith })

abbrev is_space : ℕ → Bool
is_space c = c == 32

is_space-laws : IsWhitespace is_space
is_space-laws = record { space = refl; visible = λ c lo hi. ground arith }

-- Detaching is bound to a text of two letters, which is no key.
abbrev file : RawConfig
file = record {
  leader = none;
  keybindings = λ key.
      if bytes_eq key (100 ∷ 101 ∷ 116 ∷ 97 ∷ 99 ∷ 104 ∷ []) then some (97 ∷ 98 ∷ []) else none;
}

from_toml_str-actions_example :
    (config : TymuxConfig) × (from_toml_str is_space (some file) ≡ some config)
    × (actions_of is_space config.bindings ≡ bound_actions is_space bindable_actions)
from_toml_str-actions_example = from_toml_str-actions is_space is_space-laws file
