-- ===== src/Command/Laws/Secrets.antt =====
-- What is left of a secret that is read from standard input.
use hop_rs.Prelude.{
  Bool, Bool-cases, Text, [], ap, every, if◌then◌else◌, inl, inr, is_empty, not, refl, true, ◌&&◌,
  ◌++◌, ◌∷◌, ◌≡◌,
}
use hop_rs.Command.Bulk.{is_line_end, normalize_stdin_secret}

-- The last character is no line end.
abbrev pub ends_clean : Text → Bool
ends_clean [] = true
ends_clean (c ∷ []) = not (is_line_end c)
ends_clean (c ∷ d ∷ s) = ends_clean (d ∷ s)

-- A secret from standard input loses its line ends at the end, all of them and nothing else.
pub normalize_stdin_secret_lem :
    (s : Text)
    → (ends : Text) × (s ≡ normalize_stdin_secret s ++ ends)
      × (every is_line_end ends ≡ true)
      × (ends_clean (normalize_stdin_secret s) ≡ true)
unfolding normalize_stdin_secret is_empty
normalize_stdin_secret_lem [] = ([], refl, refl, refl)
normalize_stdin_secret_lem (c ∷ s) =
    let (ends, split, all_ends, clean) = normalize_stdin_secret_lem s in
    go (normalize_stdin_secret s) ends split all_ends clean
  where
    go :
        (rest ends : Text)
        → s ≡ rest ++ ends
        → every is_line_end ends ≡ true
        → ends_clean rest ≡ true
        → let kept = if is_empty rest && is_line_end c then [] else c ∷ rest in
          (more : Text) × (c ∷ s ≡ kept ++ more)
          × (every is_line_end more ≡ true)
          × (ends_clean kept ≡ true)
    go [] ends split all_ends clean = elim (Bool-cases (is_line_end c)) [
      | inl gone ↦ rw gone (c ∷ s, refl, rw (split, gone) all_ends, refl)
      | inr stays ↦ rw stays (ends, ap (λ t. c ∷ t) split, all_ends, rw stays refl)
    ]
    go (d ∷ rest) ends split all_ends clean = (ends, ap (λ t. c ∷ t) split, all_ends, clean)
