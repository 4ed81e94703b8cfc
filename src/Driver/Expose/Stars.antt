-- ===== src/Driver/Expose/Stars.antt =====
-- The format of an entry of exposedLocalERIs has no star among the devices.
use alibabacloud_erdma_contr.Prelude.{
  ℕ, ◌≡◌, refl, ◌∙◌, ap, Bool, true, false, Text, List, [], ◌∷◌, ◌++◌, arith,
}
use alibabacloud_erdma_contr.Exec.{err, errorf}
use alibabacloud_erdma_contr.Driver.Expose.{
  Scan, at_start, at_dash, at_id, in_id, after_star, in_space, in_word, after_slash, rejected,
  is_word, is_space, scan_step, scan, is_expose_info, expose_loop,
}

-- The states after the first blank.
is_late : Scan → Bool
is_late in_space = true
is_late in_word = true
is_late after_slash = true
is_late rejected = true
is_late _ = false

blank-is_late : (s : Scan) → is_late (scan_step s 32) ≡ true
unfolding is_late scan_step is_word is_space
blank-is_late at_start = refl
blank-is_late at_dash = refl
blank-is_late at_id = refl
blank-is_late in_id = refl
blank-is_late after_star = refl
blank-is_late in_space = refl
blank-is_late in_word = refl
blank-is_late after_slash = refl
blank-is_late rejected = refl

scan_step-is_late : (s : Scan) (c : ℕ) → is_late s ≡ true → is_late (scan_step s c) ≡ true
unfolding is_late scan_step
scan_step-is_late s c h = ground arith

scan-is_late : (s : Scan) (t : Text) → is_late s ≡ true → is_late (scan s t) ≡ true
unfolding scan
scan-is_late s [] h = h
scan-is_late s (c ∷ t) h = scan-is_late (scan_step s c) t (scan_step-is_late s c h)

star-rejected : (s : Scan) → is_late s ≡ true → scan_step s b'*' ≡ rejected
unfolding is_late scan_step is_word is_space
star-rejected s h = ground arith

scan-rejected : (t : Text) → scan rejected t ≡ rejected
unfolding scan scan_step
scan-rejected [] = refl
scan-rejected (c ∷ t) = scan-rejected t

scan-append : (s : Scan) (t u : Text) → scan s (t ++ u) ≡ scan (scan s t) u
unfolding scan
scan-append s [] u = refl
scan-append s (c ∷ t) u = scan-append (scan_step s c) t u

late_star :
    (s : Scan) (devices rest : Text)
    → is_late s ≡ true
    → scan s (devices ++ (b'*' ∷ rest)) ≡ rejected
unfolding scan
late_star s devices rest h =
    scan-append s devices (b'*' ∷ rest)
    ∙ ap (λ x. scan x rest) (star-rejected (scan s devices) (scan-is_late s devices h))
    ∙ scan-rejected rest

blank_star :
    (front devices rest : Text)
    → scan at_start (front ++ (32 ∷ (devices ++ (b'*' ∷ rest)))) ≡ rejected
unfolding scan
blank_star front devices rest =
    scan-append at_start front (32 ∷ (devices ++ (b'*' ∷ rest)))
    ∙ late_star (scan_step (scan at_start front) 32) devices rest
        (blank-is_late (scan at_start front))

-- A text with a star somewhere behind a blank is no entry, and where the loop over the entries
-- comes to it, the loop ends with an error, whatever was found before.
pub star_refused :
    (front devices rest instance device : Text) (entries : List Text) (matched : Bool)
    (others : List Text)
    → (is_expose_info (front ++ (32 ∷ (devices ++ (b'*' ∷ rest)))) ≡ false)
      × (expose_loop instance device
            ((front ++ (32 ∷ (devices ++ (b'*' ∷ rest)))) ∷ entries)
            matched
            others
          ≡ err (errorf "invalid format %s" []))
unfolding expose_loop is_expose_info
star_refused front devices rest instance device entries matched others =
    let e = blank_star front devices rest in (rw e refl, rw (e, expose_loop) refl)
