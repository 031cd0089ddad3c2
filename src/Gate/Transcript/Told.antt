-- ===== src/Gate/Transcript/Told.antt =====
-- src/agentmarshal/journal/gate.py: what the lines of a transcript tell.
use agentmarshal.Common.{
  all, any, All, any-append, All-snoc, Text, text, starts_with, leb, ◌==◌, Bool-cases, and-eq-true,
  ℕ, suc, ◌≡◌, refl, inl, inr, Bool, true, false, not, ◌&&◌, [], ◌∷◌, ◌++◌, arith,
}
use agentmarshal.Runtime.{Runtime}
use agentmarshal.Records.Forgeable.{forges_rendered_text}
use agentmarshal.Display.Escape.{escape_each, escape_for_display}
use agentmarshal.Display.Safe.{AsciiIsPlain, ascii_is_clean, escaped_never_forges}
use agentmarshal.Gate.Transcript.{Transcript, blank, say, check_line, is_clear}

unfoldable pub is_fail : Text → Bool
unfolding starts_with text
is_fail line = starts_with line (text "FAIL: ")

-- Each line is one that the forgeable-text rule accepts, and there is a violation exactly when a line
-- says `FAIL`.
pub record IsTold (rt : Runtime) (t : Transcript) : Type 0 where
  pub clean : All (λ line. forges_rendered_text rt line ≡ false) t.lines
  pub judged : is_clear t ≡ not (any is_fail t.lines)

unfoldable pub is_printable : ℕ → Bool
is_printable c = leb 32 c && leb c 126

-- A text that starts with a printable character of ASCII other than that of `FAIL`.
unfoldable pub is_quiet : Text → Bool
unfolding is_printable
is_quiet [] = false
is_quiet (c ∷ s) = is_printable c && not (c == b'F')

starts_with-append : (p s : Text) → starts_with (p ++ s) p ≡ true
unfolding starts_with
starts_with-append [] s = unfold starts_with in refl
starts_with-append (c ∷ p) s = ground (arith, starts_with-append p s)

module _ (rt : Runtime) (plain_ascii : AsciiIsPlain rt) where
  head_kept :
      (c : ℕ) (s : Text) → is_printable c ≡ true → escape_each rt (c ∷ s) ≡ c ∷ escape_each rt s
  unfolding escape_each forges_rendered_text is_printable any
  head_kept c s h =
      rw (ascii_is_clean rt plain_ascii c (ground (arith, h)) (ground (arith, h))) refl

  prefix_kept :
      (p s : Text) → all is_printable p ≡ true → escape_each rt (p ++ s) ≡ p ++ escape_each rt s
  unfolding all
  prefix_kept [] s h = refl
  prefix_kept (c ∷ p) s h =
      let (hc, hp) = and-eq-true (is_printable c) (all is_printable p) h in
      rw (head_kept c (p ++ s) hc, prefix_kept p s hp) refl

  shown :
      (p s : Text)
      → all is_printable p ≡ true
      → starts_with (escape_for_display rt (p ++ s)) p ≡ true
  unfolding escape_for_display
  shown p s h = elim (Bool-cases (forges_rendered_text rt (p ++ s))) [
    | inl bad ↦ rw (bad, prefix_kept p s h) (starts_with-append p (escape_each rt s))
    | inr good ↦ rw good (starts_with-append p s)
  ]

  quiet_is_no_fail : (s : Text) → is_quiet s ≡ true → is_fail (escape_for_display rt s) ≡ false
  unfolding escape_for_display is_fail is_quiet starts_with text
  quiet_is_no_fail [] h = cc
  quiet_is_no_fail (c ∷ s) h = elim (Bool-cases (forges_rendered_text rt (c ∷ s))) [
    | inl bad ↦ rw (bad, head_kept c s (ground arith)) (ground (arith, h))
    | inr good ↦ rw good (ground (arith, h))
  ]

  fail_is_fail : (s : Text) → is_fail (escape_for_display rt (text "FAIL: " ++ s)) ≡ true
  unfolding is_fail
  fail_is_fail s =
      shown (text "FAIL: ") s (unfold all in unfold is_printable in unfold text in refl)

  IsTold-line :
      (t : Transcript) (n : ℕ) (message : Text)
      → IsTold rt t
      → (n == 0) ≡ (is_clear t && not (is_fail (escape_for_display rt message)))
      → IsTold rt
          (record { lines = t.lines ++ (escape_for_display rt message ∷ []); violations = n })
  unfolding is_clear any
  IsTold-line t n message told h = record {
    clean =
        All-snoc (λ line. forges_rendered_text rt line ≡ false) t.lines
          (escape_for_display rt message) told.clean (escaped_never_forges rt plain_ascii message);
    judged =
        rw (any-append is_fail t.lines (escape_for_display rt message ∷ []))
          (ground (arith, told.judged, h));
  }

  pub say-IsTold :
      (message : Text) (t : Transcript)
      → is_quiet message ≡ true
      → IsTold rt t
      → IsTold rt (say rt message t)
  unfolding say
  say-IsTold message t quiet told =
      IsTold-line t t.violations message told
        (unfold is_clear in ground (arith, quiet_is_no_fail message quiet))

  pub check_line-IsTold :
      (passed : Bool) (message : Text) (t : Transcript)
      → IsTold rt t
      → IsTold rt (check_line rt passed message t)
  unfolding check_line say
  check_line-IsTold true message t told =
      IsTold-line t t.violations (text "PASS: " ++ message) told (
        unfold is_clear in
        ground (
          arith,
          quiet_is_no_fail (text "PASS: " ++ message)
              (unfold is_quiet in unfold is_printable in unfold text in refl),
        ))
  check_line-IsTold false message t told =
      IsTold-line t (suc t.violations) (text "FAIL: " ++ message) told
        (unfold is_clear in ground (arith, fail_is_fail message))

pub blank-IsTold : (rt : Runtime) → IsTold rt blank
unfolding is_clear any
blank-IsTold rt = record { clean = tt; judged = refl }
