-- ===== src/Cli/Typing.antt =====
-- crates/tymux-cli/src/input.rs: what is typed, however the reads split it, reads as keys with and
-- without a leader.
use tymux.Base.{
  ℕ, ◌≡◌, ◌≢◌, ◌∙◌, sym, ap, refl, inl, inr, Bool, true, false, Option, none, some, List, [], ◌∷◌,
  ◌++◌, append_assoc, ◌==◌, arith, Bool-cases, Option-cases,
}
use tymux.Base.Bytes.{Bytes}
use tymux.Cli.{
  KeyEvent, KeyBinding, KeystrokeReassembler, ReassembledOutput, forward, action, normal,
  classify_byte, arms, find_binding, handle_normal_byte, process_in, process_byte, process,
}
use tymux.Cli.Leading.{
  Leads, Binds, IsUnbound, arms-Leads, Leads-arms, find_binding-IsUnbound, find_binding-Binds,
}

module _ (same : KeyEvent → KeyEvent → Bool) where
  -- How the bytes arrive in reads makes no difference: a leader and its key may be split.
  pub process-append :
      (r : KeystrokeReassembler) (xs ys : Bytes)
      → process same r (xs ++ ys) ≡ (
        (process same (process same r xs).0 ys).0,
        (process same r xs).1 ++ (process same (process same r xs).0 ys).1,
      )
  unfolding process
  process-append r [] ys = refl
  process-append r (x ∷ xs) ys =
      let (r', out) = process_byte same r x in
      ap (λ (p : KeystrokeReassembler × List ReassembledOutput). (p.0, out ++ p.1))
        (process-append r' xs ys)
      ∙ ap (λ o. ((process same (process same r' xs).0 ys).0, o))
          (sym (append_assoc out (process same r' xs).1 (process same (process same r' xs).0 ys).1))

  abbrev pub idle : KeystrokeReassembler → KeystrokeReassembler
  idle r = record r { armed = none; scan = normal }

  abbrev pub armed_by : KeystrokeReassembler → ℕ → KeystrokeReassembler
  armed_by r a = record r { armed = some (a ∷ [], classify_byte a); scan = normal }

  abbrev pub held_bytes : Option (Bytes × KeyEvent) → Bytes
  held_bytes none = []
  held_bytes (some (bs, key)) = bs

  -- No byte is ESC, which could begin a paste.
  abbrev pub IsPlain : Bytes → Type 0
  IsPlain [] = Unit {0}
  IsPlain (b ∷ bs) = (b ≢ 27) × IsPlain bs

  -- What the bytes that are typed stand for. Each is forwarded on its own, or is a leader. A leader
  -- waits for the next byte: the same key gives that byte once, a bound key gives the action and no
  -- bytes, and any other key gives both bytes in their order.
  pub data Typed (r : KeystrokeReassembler) : Bytes → List ReassembledOutput → Bytes → Type 0 where
    done : Typed r [] [] []
    waiting : (a : ℕ) → Leads same r (classify_byte a) → Typed r (a ∷ []) [] (a ∷ [])
    plain :
        (b : ℕ) {bs held : Bytes} {out : List ReassembledOutput}
        → ¬ (Leads same r (classify_byte b))
        → Typed r bs out held
        → Typed r (b ∷ bs) (forward (b ∷ []) ∷ out) held
    literal :
        (a b : ℕ) {bs held : Bytes} {out : List ReassembledOutput}
        → Leads same r (classify_byte a)
        → same (classify_byte b) (classify_byte a) ≡ true
        → Typed r bs out held
        → Typed r (a ∷ b ∷ bs) (forward (b ∷ []) ∷ out) held
    bound :
        (a b : ℕ) (k : KeyBinding) {bs held : Bytes} {out : List ReassembledOutput}
        → Leads same r (classify_byte a)
        → same (classify_byte b) (classify_byte a) ≡ false
        → Binds same (classify_byte a) (classify_byte b) k r.bindings
        → Typed r bs out held
        → Typed r (a ∷ b ∷ bs) (action k.action ∷ out) held
    unbound :
        (a b : ℕ) {bs held : Bytes} {out : List ReassembledOutput}
        → Leads same r (classify_byte a)
        → same (classify_byte b) (classify_byte a) ≡ false
        → IsUnbound same (classify_byte a) (classify_byte b) r.bindings
        → Typed r bs out held
        → Typed r (a ∷ b ∷ bs) (forward (a ∷ b ∷ []) ∷ out) held

  mutual
    unfolding process process_in handle_normal_byte arms

    idle-Typed :
        (r : KeystrokeReassembler) (bs : Bytes)
        → IsPlain bs
        → Typed r bs (process same (idle r) bs).1 (held_bytes (process same (idle r) bs).0.armed)
    idle-Typed r [] h = done
    idle-Typed r (b ∷ bs) h =
        let no_escape : (b == 27) ≡ false = ground (arith, h.0) in
        elim (Bool-cases (arms same r (classify_byte b))) [
          | inl e ↦ rw (no_escape, e) (armed-Typed r bs b h.1 e)
          | inr e ↦
              rw (no_escape, e)
                (plain b (λ l. ground (arith, e, Leads-arms same r (classify_byte b) l))
                  (idle-Typed r bs h.1))
        ]

    armed-Typed :
        (r : KeystrokeReassembler) (bs : Bytes) (a : ℕ)
        → IsPlain bs
        → arms same r (classify_byte a) ≡ true
        → Typed r
            (a ∷ bs)
            (process same (armed_by r a) bs).1
            (held_bytes (process same (armed_by r a) bs).0.armed)
    armed-Typed r [] a h on = waiting a (arms-Leads same r (classify_byte a) on)
    armed-Typed r (b ∷ bs) a h on =
        let no_escape : (b == 27) ≡ false = ground (arith, h.0) in
        let leads = arms-Leads same r (classify_byte a) on in
        let found = find_binding same (classify_byte a) (classify_byte b) r.bindings in
        elim (Bool-cases (same (classify_byte b) (classify_byte a))) [
          | inl e ↦ rw (no_escape, e) (literal a b leads e (idle-Typed r bs h.1))
          | inr e ↦ elim (Option-cases found) [
            | inl f ↦
                rw (no_escape, e, f)
                  (unbound a b leads e
                    (find_binding-IsUnbound same (classify_byte a) (classify_byte b) r.bindings f)
                    (idle-Typed r bs h.1))
            | inr (k, f) ↦
                rw (no_escape, e, f)
                  (bound a b k leads e
                    (find_binding-Binds same (classify_byte a) (classify_byte b) r.bindings k f)
                    (idle-Typed r bs h.1))
          ]
        ]

  -- Bytes without ESC, read from rest, come out as the keys that they are. A key that is neither the
  -- leader nor the first of a binding is forwarded; one that is waits for the next, and is held at the
  -- end. The next key, if it is the same, is forwarded alone; if they are the two keys of a binding,
  -- the action of the first such binding fires and nothing is forwarded; else both are forwarded.
  pub process-Typed :
      (r : KeystrokeReassembler) (bs : Bytes)
      → IsPlain bs
      → Typed r bs (process same (idle r) bs).1 (held_bytes (process same (idle r) bs).0.armed)
  process-Typed r bs h = idle-Typed r bs h
