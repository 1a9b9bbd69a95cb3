-- ===== src/Cli/Pasting.antt =====
-- crates/tymux-cli/src/input.rs: what is pasted goes to the pane as it is, and no binding fires on it.
use tymux.Base.{
  ℕ, ◌+◌, ◌-◌, ◌≤◌, ◌≡◌, ◌∙◌, sym, ap, refl, subst, inl, inr, ◌⊎◌, Bool, true, false, Option, none,
  some, List, [], ◌∷◌, ◌++◌, append-nil, append_assoc, ltb, if◌then◌else◌, length, take, drop,
  length-append, length-drop, take-append-drop, drop-append-length, take-append-length, arith,
  Bool-cases,
}
use tymux.Base.Bytes.{Bytes}
use tymux.Cli.{
  KeyEvent, KeystrokeReassembler, ReassembledOutput, forward, action, normal, in_paste, paste_end,
  ends_with, not_empty, with_scan, process_in, process, forwarded, fired,
}

-- The same with the whole paste kept until it ends: its content, and what follows the end marker.
abbrev pub whole_paste : Bytes → Bytes → Option (Bytes × Bytes)
whole_paste seen [] = none
whole_paste seen (b ∷ bs) =
    let seen' = seen ++ b ∷ [] in
    let later = whole_paste seen' bs in
    if ends_with seen' paste_end
    then some (take (length seen' - length paste_end) seen', bs)
    else later

ends_with-append :
    (a b suffix : Bytes) → length suffix ≤ length b → ends_with (a ++ b) suffix ≡ ends_with b suffix
ends_with-append a b suffix h =
    let sum = length-append a b in
    let same : length (a ++ b) - length suffix ≡ length a + (length b - length suffix) =
      omega (arith, sum) in
    rw (same, drop-append-length) (ground (arith, sum))

pub forwarded-append :
    (xs ys : List ReassembledOutput) → forwarded (xs ++ ys) ≡ forwarded xs ++ forwarded ys
unfolding forwarded
forwarded-append [] ys = refl
forwarded-append (forward bs ∷ xs) ys =
    ap (bs ++◌) (forwarded-append xs ys) ∙ sym (append_assoc bs (forwarded xs) (forwarded ys))
forwarded-append (action a ∷ xs) ys = forwarded-append xs ys

pub fired-append : (xs ys : List ReassembledOutput) → fired (xs ++ ys) ≡ fired xs ++ fired ys
unfolding fired
fired-append [] ys = refl
fired-append (forward bs ∷ xs) ys = fired-append xs ys
fired-append (action a ∷ xs) ys = ap (a ∷◌) (fired-append xs ys)

not_empty-forwarded : (bs : Bytes) → forwarded (not_empty bs) ≡ bs
unfolding forwarded
not_empty-forwarded [] = refl
not_empty-forwarded (b ∷ bs) = append-nil (b ∷ bs)

not_empty-fired : (bs : Bytes) → fired (not_empty bs) ≡ []
unfolding fired
not_empty-fired [] = refl
not_empty-fired (b ∷ bs) = refl

-- What has been read of a paste: what went to the pane, and what is held as a possible end marker.
record IsSplit (flushed buf seen : Bytes) : Type 0 where
  whole : flushed ++ buf ≡ seen
  short : length buf ≤ 6
  enough : (flushed ≡ []) ⊎ (5 ≤ length buf)

-- The held bytes tell whether the paste ends, as all the bytes would.
ends_with-held :
    (flushed buf : Bytes) (b : ℕ)
    → (flushed ≡ []) ⊎ (5 ≤ length buf)
    → ends_with (flushed ++ (buf ++ b ∷ [])) paste_end ≡ ends_with (buf ++ b ∷ []) paste_end
ends_with-held flushed buf b (inl e) = rw e refl
ends_with-held flushed buf b (inr h) =
    ends_with-append flushed (buf ++ b ∷ []) paste_end (omega (arith, length-append buf (b ∷ [])))

module _ (same : KeyEvent → KeyEvent → Bool) where
  -- How the bytes of a paste leave, by what the paste is taken as a whole. It is still open, with bytes
  -- held; or its content went to the pane, and the rest is read as if the paste had not been there.
  pub data Pasted (r : KeystrokeReassembler) (flushed all : Bytes)
      : KeystrokeReassembler × List ReassembledOutput → Option (Bytes × Bytes) → Type 0 where
    unfinished :
        (held : Bytes) (out : List ReassembledOutput)
        → flushed ++ (forwarded out ++ held) ≡ all
        → length held ≤ 6
        → fired out ≡ []
        → Pasted r flushed all (with_scan same r (in_paste held), out) none
    finished :
        (content rest : Bytes) (out : List ReassembledOutput)
        → flushed ++ forwarded out ≡ content
        → fired out ≡ []
        → Pasted r flushed all
            (
              (process same (with_scan same r normal) rest).0,
              out ++ (process same (with_scan same r normal) rest).1,
            )
            (some (content, rest))

  -- One byte read, with nothing of it seen outside yet.
  after_forward :
      (r : KeystrokeReassembler) (flushed all chunk : Bytes)
      (p : KeystrokeReassembler × List ReassembledOutput) (o : Option (Bytes × Bytes))
      → Pasted r (flushed ++ chunk) all p o
      → Pasted r flushed all (p.0, forward chunk ∷ p.1) o
  unfolding forwarded fired
  after_forward r flushed all chunk _ _ (unfinished held out e s f) =
      unfinished held (forward chunk ∷ out)
        (ap (flushed ++◌) (append_assoc chunk (forwarded out) held)
          ∙ (sym (append_assoc flushed chunk (forwarded out ++ held)) ∙ e))
        s f
  after_forward r flushed all chunk _ _ (finished content rest out e f) =
      finished content rest (forward chunk ∷ out)
        (sym (append_assoc flushed chunk (forwarded out)) ∙ e) f

  at_all :
      {r : KeystrokeReassembler} {flushed x y : Bytes}
      {p : KeystrokeReassembler × List ReassembledOutput} {o : Option (Bytes × Bytes)}
      → x ≡ y
      → Pasted r flushed x p o
      → Pasted r flushed y p o
  at_all {r = r} {flushed = flushed} {p = p} {o = o} e h = subst (λ z. Pasted r flushed z p o) e h

  module _ (r : KeystrokeReassembler) (flushed buf seen bs : Bytes) (b : ℕ)
      (s : IsSplit flushed buf seen) where
    abbrev now_held : Bytes
    now_held = buf ++ b ∷ []

    now_seen : seen ++ b ∷ [] ≡ flushed ++ now_held
    now_seen = ap (λ x. x ++ b ∷ []) (sym s.whole) ∙ append_assoc flushed buf (b ∷ [])

    all_seen : (seen ++ b ∷ []) ++ bs ≡ seen ++ b ∷ bs
    all_seen = append_assoc seen (b ∷ []) bs

    ends_now : ends_with (seen ++ b ∷ []) paste_end ≡ ends_with now_held paste_end
    ends_now = ap (λ x. ends_with x paste_end) now_seen ∙ ends_with-held flushed buf b s.enough

    content_now :
        ends_with now_held paste_end ≡ true
        → flushed ++ take (length now_held - length paste_end) now_held
          ≡ take (length (seen ++ b ∷ []) - length paste_end) (seen ++ b ∷ [])
    content_now e =
        let k : length (flushed ++ now_held) - length paste_end
            ≡ length flushed + (length now_held - length paste_end) =
          ground (arith, e, length-append flushed now_held) in
        rw (now_seen, k) (sym (take-append-length flushed now_held _))

    held_length : length now_held ≡ length buf + 1
    held_length = omega (arith, length-append buf (b ∷ []))

    kept-IsSplit : ltb 6 (length now_held) ≡ false → IsSplit flushed now_held (seen ++ b ∷ [])
    kept-IsSplit h = record {
      whole = sym now_seen;
      short = ground (arith, h);
      enough = ground (arith, s.enough, held_length);
    }

    cut-IsSplit :
        ltb 6 (length now_held) ≡ true
        → IsSplit
            (flushed ++ take (length now_held - 5) now_held)
            (drop (length now_held - 5) now_held)
            (seen ++ b ∷ [])
    cut-IsSplit h =
        let k = length now_held - 5 in
        let left = length-drop k now_held in
        record {
          whole =
              append_assoc flushed (take k now_held) (drop k now_held)
              ∙ (ap (flushed ++◌) (take-append-drop k now_held) ∙ sym now_seen);
          short = ground (arith, h, left, s.short, held_length);
          enough = inr (ground (arith, h, left));
        }

  paste-Pasted :
      (r : KeystrokeReassembler) (bs flushed buf seen : Bytes)
      → IsSplit flushed buf seen
      → Pasted r flushed
          (seen ++ bs)
          (process same (with_scan same r (in_paste buf)) bs)
          (whole_paste seen bs)
  unfolding process process_in forwarded fired
  paste-Pasted r [] flushed buf seen s =
      unfinished buf [] (s.whole ∙ sym (append-nil seen)) s.short refl
  paste-Pasted r (b ∷ bs) flushed buf seen s =
      let held = buf ++ b ∷ [] in
      let ends = ends_now r flushed buf seen bs b s in
      elim (Bool-cases (ends_with held paste_end)) [
        | inl e ↦
            rw (ends, e)
              (finished _ bs (not_empty (take (length held - 6) held))
                (ap (flushed ++◌) (not_empty-forwarded _) ∙ content_now r flushed buf seen bs b s e)
                (not_empty-fired _))
        | inr e ↦ elim (Bool-cases (ltb 6 (length held))) [
          | inl l ↦
              rw (ends, e, l)
                (after_forward r flushed _ (take (length held - 5) held) _ _ (
                  at_all (all_seen r flushed buf seen bs b s) (
                    paste-Pasted r bs (flushed ++ take (length held - 5) held)
                      (drop (length held - 5) held) (seen ++ b ∷ [])
                      (cut-IsSplit r flushed buf seen bs b s l))))
          | inr l ↦
              rw (ends, e, l)
                (at_all (all_seen r flushed buf seen bs b s) (
                  paste-Pasted r bs flushed held (seen ++ b ∷ [])
                    (kept-IsSplit r flushed buf seen bs b s l)))
        ]
      ]

  -- The bytes behind a paste's start marker go to the pane as they are, without the end marker, up to
  -- its first occurrence, and fire no action, although at most six bytes are held back at a time. What
  -- follows the end marker is read as if there had been no paste, an armed leader included. Without
  -- an end marker, all bytes but those held have gone to the pane.
  pub process-Pasted :
      (r : KeystrokeReassembler) (bs : Bytes)
      → Pasted r [] bs (process same (with_scan same r (in_paste [])) bs) (whole_paste [] bs)
  process-Pasted r bs =
      paste-Pasted r bs [] [] [] (record { whole = refl; short = omega arith; enough = inl refl })
