-- ===== src/Cli/Config.antt =====
-- crates/tymux-cli/src/config.rs: the bindings of a config file that is parsed already. A text is a list
-- of characters, as numbers; which of them are white space is a parameter. The file's table of bindings
-- is the function that looks a key up in it.
use tymux.Base.{
  ℕ, ◌≤◌, ◌≡◌, refl, ap₂, arith, inl, inr, Bool, true, false, Option, none, some, List, [], ◌∷◌,
  ◌++◌, if◌then◌else◌, drop, Result, ok, err, Result-cases, Option-cases,
}
use tymux.Cli.{
  Action, detach, enter_copy_mode, split_horizontal, split_vertical, new_window, next_window,
  prev_window, kill_pane, KeyEvent, KeyBinding, starts_with,
}

abbrev pub Text : Type 0
Text = List ℕ

pub record KeySequenceParseError : Type 0 where
  pub raw : Text

pub record TymuxConfig : Type 0 where
  pub leader : Text
  pub bindings : List KeyBinding

pub record RawConfig : Type 0 where
  pub leader : Option Text
  pub keybindings : Text → Option Text

-- `C-b` and a key.
abbrev pub behind_prefix : ℕ → Text
behind_prefix c = 67 ∷ 45 ∷ 98 ∷ 32 ∷ c ∷ []

abbrev pub default_leader : Text
default_leader = 67 ∷ 45 ∷ 98 ∷ []

-- The keys of the config file.
abbrev detach_key : Text
detach_key = 100 ∷ 101 ∷ 116 ∷ 97 ∷ 99 ∷ 104 ∷ []

abbrev copy_mode_key : Text
copy_mode_key = 99 ∷ 111 ∷ 112 ∷ 121 ∷ 95 ∷ 109 ∷ 111 ∷ 100 ∷ 101 ∷ []

abbrev split_horizontal_key : Text
split_horizontal_key =
    115 ∷ 112 ∷ 108 ∷ 105 ∷ 116 ∷ 95 ∷ 104 ∷ 111 ∷ 114 ∷ 105 ∷ 122 ∷ 111 ∷ 110 ∷ 116 ∷ 97 ∷ 108 ∷ []

abbrev split_vertical_key : Text
split_vertical_key =
    115 ∷ 112 ∷ 108 ∷ 105 ∷ 116 ∷ 95 ∷ 118 ∷ 101 ∷ 114 ∷ 116 ∷ 105 ∷ 99 ∷ 97 ∷ 108 ∷ []

abbrev new_window_key : Text
new_window_key = 110 ∷ 101 ∷ 119 ∷ 95 ∷ 119 ∷ 105 ∷ 110 ∷ 100 ∷ 111 ∷ 119 ∷ []

abbrev next_window_key : Text
next_window_key = 110 ∷ 101 ∷ 120 ∷ 116 ∷ 95 ∷ 119 ∷ 105 ∷ 110 ∷ 100 ∷ 111 ∷ 119 ∷ []

abbrev prev_window_key : Text
prev_window_key = 112 ∷ 114 ∷ 101 ∷ 118 ∷ 95 ∷ 119 ∷ 105 ∷ 110 ∷ 100 ∷ 111 ∷ 119 ∷ []

abbrev kill_pane_key : Text
kill_pane_key = 107 ∷ 105 ∷ 108 ∷ 108 ∷ 95 ∷ 112 ∷ 97 ∷ 110 ∷ 101 ∷ []

abbrev pub bindable_actions : List (Action × Text × Text)
bindable_actions =
    (detach, detach_key, behind_prefix 100)
    ∷ (enter_copy_mode, copy_mode_key, behind_prefix 91)
    ∷ (split_horizontal, split_horizontal_key, behind_prefix 37)
    ∷ (split_vertical, split_vertical_key, behind_prefix 34)
    ∷ (new_window, new_window_key, behind_prefix 99)
    ∷ (next_window, next_window_key, behind_prefix 110)
    ∷ (prev_window, prev_window_key, behind_prefix 112)
    ∷ (kill_pane, kill_pane_key, behind_prefix 120)
    ∷ []

-- The one character of a token.
abbrev pub only_char : Text → Bool → Text → Result KeyEvent KeySequenceParseError
only_char (c ∷ []) control raw = ok (record { char = c; control = control })
only_char _ control raw = err (record { raw = raw })

unfoldable pub parse_key_token : Text → Text → Result KeyEvent KeySequenceParseError
parse_key_token token raw =
    if starts_with token (67 ∷ 45 ∷ [])
    then only_char (drop 2 token) true raw
    else only_char token false raw

-- The first error, or all results: `collect`.
abbrev pub collect : Text → List Text → Result (List KeyEvent) KeySequenceParseError
collect raw [] = ok []
collect raw (token ∷ rest) = elim (parse_key_token token raw) [
  | err e ↦ err e
  | ok key ↦ elim (collect raw rest) [ err e ↦ err e | ok keys ↦ ok (key ∷ keys) ]
]

abbrev pub push_token : Text → List Text → List Text
push_token [] rest = rest
push_token (c ∷ cs) rest = (c ∷ cs) ∷ rest

module _ (is_whitespace : ℕ → Bool) where
  -- The words of a text, with the letters of the word so far.
  abbrev pub split_from : Text → Text → List Text
  split_from word [] = push_token word []
  split_from word (c ∷ cs) =
      let next = split_from [] cs in
      let longer = split_from (word ++ c ∷ []) cs in
      if is_whitespace c then push_token word next else longer

  unfoldable pub parse_key_sequence : Text → Result (List KeyEvent) KeySequenceParseError
  unfolding parse_key_token
  parse_key_sequence raw = collect raw (split_from [] raw)

  -- `none` is the panic over a default that does not parse.
  unfoldable pub binding_of : (Text → Option Text) → Action × Text × Text → Option KeyBinding
  unfolding parse_key_sequence
  binding_of keybindings (act, config_key, default_seq) =
      let default : Option KeyBinding = elim (parse_key_sequence default_seq) [
        | err e ↦ none
        | ok keys ↦ some (record { sequence = keys; action = act })
      ] in
      elim (keybindings config_key) [
        | none ↦ default
        | some raw ↦ elim (parse_key_sequence raw) [
          | ok keys ↦ some (record { sequence = keys; action = act })
          | err e ↦ default
        ]
      ]

  abbrev pub bindings_of :
      (Text → Option Text) → List (Action × Text × Text) → Option (List KeyBinding)
  bindings_of keybindings [] = some []
  bindings_of keybindings (entry ∷ rest) = elim (binding_of keybindings entry) [
    | none ↦ none
    | some b ↦ elim (bindings_of keybindings rest) [ none ↦ none | some bs ↦ some (b ∷ bs) ]
  ]

  abbrev pub leader_or : Option Text → Text
  leader_or none = default_leader
  leader_or (some leader) = leader

  unfoldable pub defaults : Option TymuxConfig
  unfolding binding_of
  defaults = elim (bindings_of (λ config_key. none) bindable_actions) [
    | none ↦ none
    | some bs ↦ some (record { leader = default_leader; bindings = bs })
  ]

  -- A file that is no TOML gives the defaults.
  unfoldable pub from_toml_str : Option RawConfig → Option TymuxConfig
  unfolding binding_of defaults
  from_toml_str none = defaults
  from_toml_str (some raw) = elim (bindings_of raw.keybindings bindable_actions) [
    | none ↦ none
    | some bs ↦ some (record { leader = leader_or raw.leader; bindings = bs })
  ]

  abbrev pub actions_of : List KeyBinding → List Action
  actions_of [] = []
  actions_of (b ∷ bs) = b.action ∷ actions_of bs

  abbrev pub bound_actions : List (Action × Text × Text) → List Action
  bound_actions [] = []
  bound_actions ((act, config_key, default_seq) ∷ rest) = act ∷ bound_actions rest

  -- Entries whose default parses.
  abbrev pub HasDefaults : List (Action × Text × Text) → Type 0
  HasDefaults [] = Unit {0}
  HasDefaults ((act, config_key, default_seq) ∷ rest) =
      ((keys : List KeyEvent) × (parse_key_sequence default_seq ≡ ok keys)) × HasDefaults rest

  binding_of-action :
      (keybindings : Text → Option Text) (act : Action) (config_key default_seq : Text)
      (keys : List KeyEvent)
      → parse_key_sequence default_seq ≡ ok keys
      → (b : KeyBinding) × (binding_of keybindings (act, config_key, default_seq) ≡ some b)
        × (b.action ≡ act)
  unfolding binding_of
  binding_of-action keybindings act config_key default_seq keys d =
      elim (Option-cases (keybindings config_key)) [
        | inl k ↦ (record { sequence = keys; action = act }, rw (binding_of, k, d) refl, refl)
        | inr (raw, k) ↦ elim (Result-cases (parse_key_sequence raw)) [
          | inl (own, p) ↦
              (record { sequence = own; action = act }, rw (binding_of, k, p) refl, refl)
          | inr (e, p) ↦
              (record { sequence = keys; action = act }, rw (binding_of, k, p, d) refl, refl)
        ]
      ]

  bindings_of-actions :
      (keybindings : Text → Option Text) (entries : List (Action × Text × Text))
      → HasDefaults entries
      → (bs : List KeyBinding) × (bindings_of keybindings entries ≡ some bs)
        × (actions_of bs ≡ bound_actions entries)
  bindings_of-actions keybindings [] h = ([], refl, refl)
  bindings_of-actions keybindings ((act, config_key, default_seq) ∷ rest) h =
      let (b, made, same) = binding_of-action keybindings act config_key default_seq h.0.0 h.0.1 in
      let (bs, later, actions) = bindings_of-actions keybindings rest h.1 in
      (b ∷ bs, rw (bindings_of, made, later) refl, ap₂ (λ x y. x ∷ y) same actions)

  -- What is relied on of `char::is_whitespace`: a space is white space, no visible ASCII character is.
  pub record IsWhitespace : Type 0 where
    pub space : is_whitespace 32 ≡ true
    pub visible : (c : ℕ) → 33 ≤ c → c ≤ 126 → is_whitespace c ≡ false

  behind_prefix-keys :
      (laws : IsWhitespace) (c : ℕ)
      → 33 ≤ c
      → c ≤ 126
      → parse_key_sequence (behind_prefix c)
        ≡ ok (record { char = 98; control = true } ∷ record { char = c; control = false } ∷ [])
  unfolding parse_key_sequence parse_key_token
  behind_prefix-keys laws c lo hi =
      rw
        (
          parse_key_sequence,
          laws.visible 67 (omega arith) (omega arith),
          laws.visible 45 (omega arith) (omega arith),
          laws.visible 98 (omega arith) (omega arith),
          laws.space,
          laws.visible c lo hi,
        )
        (ground arith)

  -- Whatever a file of valid TOML says, the client starts with one binding for each bindable action, in
  -- the order of the table, and nothing panics: what does not parse gives way to the default, which
  -- does, if a space is white space and no visible ASCII character is.
  pub from_toml_str-actions :
      (laws : IsWhitespace) (raw : RawConfig)
      → (config : TymuxConfig) × (from_toml_str (some raw) ≡ some config)
        × (actions_of config.bindings ≡ bound_actions bindable_actions)
  unfolding from_toml_str
  from_toml_str-actions laws raw =
      let visible : ℕ → Type 0 = λ c. (33 ≤ c) × (c ≤ 126) in
      let parses : (c : ℕ)
          → visible c
          → (keys : List KeyEvent) × (parse_key_sequence (behind_prefix c) ≡ ok keys) =
        λ c h. (_, behind_prefix-keys laws c h.0 h.1) in
      let all : HasDefaults bindable_actions = (
        parses 100 (omega arith, omega arith),
        (
          parses 91 (omega arith, omega arith),
          (
            parses 37 (omega arith, omega arith),
            (
              parses 34 (omega arith, omega arith),
              (
                parses 99 (omega arith, omega arith),
                (
                  parses 110 (omega arith, omega arith),
                  (
                    parses 112 (omega arith, omega arith),
                    (parses 120 (omega arith, omega arith), tt),
                  ),
                ),
              ),
            ),
          ),
        ),
      ) in
      let (bs, made, actions) = bindings_of-actions raw.keybindings bindable_actions all in
      (
        record { leader = leader_or raw.leader; bindings = bs },
        rw (from_toml_str, made) refl,
        actions,
      )
