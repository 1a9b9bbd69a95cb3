-- ===== src/Cli/Leading.antt =====
-- crates/tymux-cli/src/input.rs: which keys wait for another, and which binding two keys complete.
use tymux.Base.{
  ◌≡◌, ap, subst, refl, inl, inr, Bool, true, false, none, some, List, [], ◌∷◌, ◌++◌, arith,
  Bool-cases,
}
use tymux.Cli.{
  KeyEvent, KeyBinding, KeystrokeReassembler, arms, first_is, any_first, is_pair, find_binding,
}

module _ (same : KeyEvent → KeyEvent → Bool) where
  -- Some binding begins with the key.
  pub data Begins (key : KeyEvent) (bindings : List KeyBinding) : Type 0 where
    begins :
        (before after : List KeyBinding) (k : KeyBinding) (first : KeyEvent) (rest : List KeyEvent)
        → bindings ≡ before ++ k ∷ after
        → k.sequence ≡ first ∷ rest
        → same first key ≡ true
        → Begins key bindings

  -- A key that waits for another: the leader, or the first key of some binding.
  pub data Leads (r : KeystrokeReassembler) (key : KeyEvent) : Type 0 where
    by_leader : same key r.leader ≡ true → Leads r key
    by_binding : Begins key r.bindings → Leads r key

  -- The binding has two keys, and these are they.
  pub data Completes (a b : KeyEvent) : List KeyEvent → Type 0 where
    pair : (x y : KeyEvent) → same x a ≡ true → same y b ≡ true → Completes a b (x ∷ y ∷ [])

  -- No binding of a list is completed by two keys.
  abbrev pub IsUnbound : KeyEvent → KeyEvent → List KeyBinding → Type 0
  IsUnbound a b [] = Unit {0}
  IsUnbound a b (k ∷ rest) = (¬ (Completes a b k.sequence)) × IsUnbound a b rest

  -- The first binding that two keys complete.
  pub data Binds (a b : KeyEvent) (k : KeyBinding) (bindings : List KeyBinding) : Type 0 where
    first_of_them :
        (before after : List KeyBinding)
        → bindings ≡ before ++ k ∷ after
        → IsUnbound a b before
        → Completes a b k.sequence
        → Binds a b k bindings

  first_is-first :
      (key : KeyEvent) (keys : List KeyEvent)
      → first_is same key keys ≡ true
      → (x : KeyEvent) × (rest : List KeyEvent) × (keys ≡ x ∷ rest) × (same x key ≡ true)
  first_is-first key [] h = absurd (ground (arith, h))
  first_is-first key (x ∷ rest) h = (x, rest, refl, h)

  any_first-Begins :
      (key : KeyEvent) (bindings : List KeyBinding)
      → any_first same key bindings ≡ true
      → Begins key bindings
  any_first-Begins key [] h = absurd (ground (arith, h))
  any_first-Begins key (k ∷ ks) h = elim (Bool-cases (first_is same key k.sequence)) [
    | inl e ↦
        let (x, rest, s, m) = first_is-first key k.sequence e in begins [] ks k x rest refl s m
    | inr e ↦ behind (any_first-Begins key ks (ground (arith, e, h)))
  ]
    where
      behind : Begins key ks → Begins key (k ∷ ks)
      behind (begins before after b x rest e s m) =
          begins (k ∷ before) after b x rest (ap (k ∷◌) e) s m

  first-any_first :
      (key : KeyEvent) (before after : List KeyBinding) (k : KeyBinding) (x : KeyEvent)
      (rest : List KeyEvent)
      → k.sequence ≡ x ∷ rest
      → same x key ≡ true
      → any_first same key (before ++ k ∷ after) ≡ true
  first-any_first key [] after k x rest e h = ground (arith, e, h)
  first-any_first key (b ∷ before) after k x rest e h =
      ground (arith, first-any_first key before after k x rest e h)

  pub arms-Leads :
      (r : KeystrokeReassembler) (key : KeyEvent) → arms same r key ≡ true → Leads r key
  unfolding arms
  arms-Leads r key h = elim (Bool-cases (same key r.leader)) [
    | inl k ↦ by_leader k
    | inr k ↦ by_binding (any_first-Begins key r.bindings (ground (arith, k, h)))
  ]

  pub Leads-arms :
      (r : KeystrokeReassembler) (key : KeyEvent) → Leads r key → arms same r key ≡ true
  unfolding arms
  Leads-arms r key (by_leader k) = ground (arith, k)
  Leads-arms r key (by_binding (begins before after b x rest e s m)) =
      ground (arith, e, first-any_first key before after b x rest s m)

  Completes-is_pair :
      (a b : KeyEvent) (keys : List KeyEvent) → Completes a b keys → is_pair same a b keys ≡ true
  Completes-is_pair a b _ (pair x y p q) = ground (arith, p, q)

  is_pair-Completes :
      (a b : KeyEvent) (keys : List KeyEvent) → is_pair same a b keys ≡ true → Completes a b keys
  is_pair-Completes a b [] h = absurd (ground arith)
  is_pair-Completes a b (x ∷ []) h = absurd (ground arith)
  is_pair-Completes a b (x ∷ y ∷ []) h = pair x y (ground (arith, h)) (ground (arith, h))
  is_pair-Completes a b (x ∷ y ∷ z ∷ rest) h = absurd (ground arith)

  pub find_binding-IsUnbound :
      (a b : KeyEvent) (ks : List KeyBinding) → find_binding same a b ks ≡ none → IsUnbound a b ks
  find_binding-IsUnbound a b [] h = tt
  find_binding-IsUnbound a b (k ∷ ks) h = elim (Bool-cases (is_pair same a b k.sequence)) [
    | inl e ↦ absurd (ground (arith, e, h))
    | inr e ↦ (
      λ c. ground (arith, e, Completes-is_pair a b k.sequence c),
      find_binding-IsUnbound a b ks (ground (arith, e, h)),
    )
  ]

  pub find_binding-Binds :
      (a b : KeyEvent) (ks : List KeyBinding) (k : KeyBinding)
      → find_binding same a b ks ≡ some k
      → Binds a b k ks
  find_binding-Binds a b [] k h = absurd (ground arith)
  find_binding-Binds a b (x ∷ ks) k h = elim (Bool-cases (is_pair same a b x.sequence)) [
    | inl e ↦
        let own : x ≡ k = ground (arith, e, h) in
        first_of_them [] ks (ap (λ y. y ∷ ks) own) tt
          (subst (λ y. Completes a b y.sequence) own (is_pair-Completes a b x.sequence e))
    | inr e ↦ behind (find_binding-Binds a b ks k (ground (arith, e, h))) e
  ]
    where
      behind : Binds a b k ks → is_pair same a b x.sequence ≡ false → Binds a b k (x ∷ ks)
      behind (first_of_them before after s n c) e =
          first_of_them (x ∷ before) after (ap (x ∷◌) s)
            (λ d. ground (arith, e, Completes-is_pair a b x.sequence d), n) c
