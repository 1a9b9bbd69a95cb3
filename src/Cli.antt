-- ===== src/Cli.antt =====
-- crates/tymux-cli/src: the command-line client. Here input.rs, which turns the bytes that are typed
-- into bound actions and bytes for the pane. A character is a number. How two key events compare is a
-- parameter, since the type belongs to the terminal library.
pub mod Pasting
pub mod Leading
pub mod Typing
pub mod CopyMode
pub mod Config
use tymux.Base.{
  ℕ, ◌+◌, ◌-◌, Bool, true, false, ◌&&◌, ◌||◌, Option, none, some, List, [], ◌∷◌, ◌++◌, ◌==◌, leb,
  ltb, if◌then◌else◌, length, take, drop,
}
use tymux.Base.Bytes.{Bytes, bytes_eq}

pub data Action : Type 0 where
  detach enter_copy_mode exit_copy_mode split_horizontal split_vertical new_window next_window
        prev_window kill_pane send_prefix_literal :
      Action

-- `KeyCode::Char` with no modifier, or with Ctrl alone.
pub record KeyEvent : Type 0 where
  pub char : ℕ
  pub control : Bool

pub record KeyBinding : Type 0 where
  pub sequence : List KeyEvent
  pub action : Action

-- ESC [ 2 0 0 ~
abbrev pub paste_start : Bytes
paste_start = 27 ∷ 91 ∷ 50 ∷ 48 ∷ 48 ∷ 126 ∷ []

-- ESC [ 2 0 1 ~
abbrev pub paste_end : Bytes
paste_end = 27 ∷ 91 ∷ 50 ∷ 48 ∷ 49 ∷ 126 ∷ []

pub data ReassembledOutput : Type 0 where
  forward : Bytes → ReassembledOutput
  action : Action → ReassembledOutput

pub data ScanState : Type 0 where
  normal : ScanState
  matching_paste_start : Bytes → ScanState
  in_paste : Bytes → ScanState

pub record KeystrokeReassembler : Type 0 where
  pub bindings : List KeyBinding
  pub leader : KeyEvent
  pub armed : Option (Bytes × KeyEvent)
  pub scan : ScanState

abbrev pub is_armed : KeystrokeReassembler → Bool
is_armed r = elim r.armed [ none ↦ false | some a ↦ true ]

abbrev pub starts_with : Bytes → Bytes → Bool
starts_with xs [] = true
starts_with [] (y ∷ ys) = false
starts_with (x ∷ xs) (y ∷ ys) = let rest = starts_with xs ys in if x == y then rest else false

abbrev pub ends_with : Bytes → Bytes → Bool
ends_with xs ys = leb (length ys) (length xs) && bytes_eq (drop (length xs - length ys) xs) ys

unfoldable pub classify_byte : ℕ → KeyEvent
classify_byte b =
    if leb 1 b && leb b 26
    then record { char = 97 + b - 1; control = true }
    else record { char = b; control = false }

-- The character behind `C-`; else, and with none behind it, Ctrl-b.
unfoldable pub parse_leader : List ℕ → KeyEvent
parse_leader raw =
    if starts_with raw (67 ∷ 45 ∷ [])
    then elim (drop 2 raw) [
      | [] ↦ record { char = 98; control = true }
      | c ∷ rest ↦ record { char = c; control = true }
    ]
    else record { char = 98; control = true }

abbrev pub not_empty : Bytes → List ReassembledOutput
not_empty [] = []
not_empty (b ∷ bs) = forward (b ∷ bs) ∷ []

module _ (same : KeyEvent → KeyEvent → Bool) where
  abbrev pub first_is : KeyEvent → List KeyEvent → Bool
  first_is key [] = false
  first_is key (k ∷ ks) = same k key

  abbrev pub any_first : KeyEvent → List KeyBinding → Bool
  any_first key [] = false
  any_first key (b ∷ rest) = first_is key b.sequence || any_first key rest

  unfoldable pub arms : KeystrokeReassembler → KeyEvent → Bool
  arms r key = same key r.leader || any_first key r.bindings

  abbrev pub is_pair : KeyEvent → KeyEvent → List KeyEvent → Bool
  is_pair a b (x ∷ y ∷ []) = same x a && same y b
  is_pair a b _ = false

  abbrev pub find_binding : KeyEvent → KeyEvent → List KeyBinding → Option KeyBinding
  find_binding a b [] = none
  find_binding a b (k ∷ rest) = if is_pair a b k.sequence then some k else find_binding a b rest

  -- What a second key does, by the binding that it completes, if any.
  abbrev pub second_key : Bytes → ℕ → Option KeyBinding → ReassembledOutput
  second_key armed_bytes b none = forward (armed_bytes ++ b ∷ [])
  second_key armed_bytes b (some binding) = action binding.action

  unfoldable pub handle_normal_byte :
      KeystrokeReassembler → ℕ → KeystrokeReassembler × List ReassembledOutput
  unfolding classify_byte arms
  handle_normal_byte r b =
      let key = classify_byte b in
      let taken = record r { armed = none } in
      elim r.armed [
        | none ↦
            if arms r key
            then (record r { armed = some (b ∷ [], key) }, [])
            else (taken, forward (b ∷ []) ∷ [])
        | some (armed_bytes, armed_key) ↦
            if same key armed_key
            then (taken, forward (b ∷ []) ∷ [])
            else (taken, second_key armed_bytes b (find_binding armed_key key r.bindings) ∷ [])
      ]

  abbrev pub with_scan : KeystrokeReassembler → ScanState → KeystrokeReassembler
  with_scan r s = record r { scan = s }

  -- A byte while `PASTE_START` is being matched; `buf` has the byte already.
  abbrev pub match_start :
      KeystrokeReassembler → Bytes → KeystrokeReassembler × List ReassembledOutput
  match_start r buf =
      if bytes_eq buf paste_start
      then (with_scan r (in_paste []), [])
      else if starts_with paste_start buf
      then (with_scan r (matching_paste_start buf), [])
      else (with_scan r normal, forward buf ∷ [])

  -- A byte of a paste; `buf` has the byte already.
  abbrev pub paste_byte :
      KeystrokeReassembler → Bytes → KeystrokeReassembler × List ReassembledOutput
  paste_byte r buf =
      let flush_upto = length buf - (length paste_end - 1) in
      if ends_with buf paste_end
      then (with_scan r normal, not_empty (take (length buf - length paste_end) buf))
      else if ltb (length paste_end) (length buf)
      then (with_scan r (in_paste (drop flush_upto buf)), forward (take flush_upto buf) ∷ [])
      else (with_scan r (in_paste buf), [])

  unfoldable pub process_in :
      ScanState → KeystrokeReassembler → ℕ → KeystrokeReassembler × List ReassembledOutput
  unfolding handle_normal_byte
  process_in normal r b =
      if b == 27 then (with_scan r (matching_paste_start (b ∷ [])), []) else handle_normal_byte r b
  process_in (matching_paste_start buf) r b = match_start r (buf ++ b ∷ [])
  process_in (in_paste buf) r b = paste_byte r (buf ++ b ∷ [])

  abbrev pub process_byte : KeystrokeReassembler → ℕ → KeystrokeReassembler × List ReassembledOutput
  process_byte r b = process_in r.scan r b

  unfoldable pub process :
      KeystrokeReassembler → Bytes → KeystrokeReassembler × List ReassembledOutput
  unfolding process_in
  process r [] = (r, [])
  process r (b ∷ bs) =
      let (r', out) = process_byte r b in let (r'', rest) = process r' bs in (r'', out ++ rest)

-- The bytes that go to the pane.
unfoldable pub forwarded : List ReassembledOutput → Bytes
forwarded [] = []
forwarded (forward bs ∷ rest) = bs ++ forwarded rest
forwarded (action a ∷ rest) = forwarded rest

-- The actions that fire.
unfoldable pub fired : List ReassembledOutput → List Action
fired [] = []
fired (forward bs ∷ rest) = fired rest
fired (action a ∷ rest) = a ∷ fired rest
