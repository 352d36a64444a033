-- ===== src/Redaction/Laws.antt =====
-- What is left of the paths of an event.
use agent_feed.Prelude.{
  List, [], and_then, and_then-eq-some, else_none-eq-some, false, if-cases, list_eq, map_or-cases,
  nat_eq, option_eq, pair_eq, refl, some, take, true, ◌++◌, ◌==◌, ◌∷◌, ◌≡◌,
}
use agent_feed.Proto.Signing.{Hashes, hex_lower}
use agent_feed.Redaction.{Redactor, is_sensitive_path, masked_home, redact_path, short_hash}
use agent_feed.Text.{Str, chars, drop_while, starts_with, strip_prefix, utf8}

-- The first 12 digits of the hash of a text.
abbrev pub digits_of : ⦃h : Hashes⦄ → Str → Str
digits_of ⦃h⦄ text = take 12 (hex_lower (h.sha256 (utf8 text)))

module _ ⦃h : Hashes⦄ (redactor : Redactor) where
  -- What a path is shown as: a marker, or digits of the hash of what follows the home directory
  -- or of the whole path.
  pub data IsHidden (path shown : Str) : Type 0 where
    sensitive :
        is_sensitive_path redactor path ≡ true
        → shown ≡ chars "[sensitive-path]"
        → IsHidden path shown
    below_home :
        (home rest : Str)
        → is_sensitive_path redactor path ≡ false
        → redactor.config.mask_home ≡ true
        → redactor.home ≡ some home
        → strip_prefix path home ≡ some rest
        → shown ≡ chars "~/#" ++ digits_of (drop_while (λ c. c == b'/') rest)
        → IsHidden path shown
    elsewhere :
        is_sensitive_path redactor path ≡ false
        → shown ≡ chars "/#" ++ digits_of path
        → IsHidden path shown

  -- Two lists of the same length, each path of the one shown in the other.
  abbrev pub AllHidden : List Str → List Str → Type 0
  AllHidden [] [] = Unit {0}
  AllHidden (path ∷ paths) (shown ∷ more) = IsHidden path shown × AllHidden paths more
  AllHidden _ _ = ⊥

  below_home-IsHidden :
      (path rest : Str)
      → is_sensitive_path redactor path ≡ false
      → and_then (masked_home redactor) (strip_prefix path) ≡ some rest
      → IsHidden path (chars "~/#" ++ short_hash (drop_while (λ c. c == b'/') rest))
  unfolding short_hash masked_home
  below_home-IsHidden path rest plain inside =
      let (home, masked, stripped) =
        and_then-eq-some (masked_home redactor) (strip_prefix path) rest inside in
      let (set, known) = else_none-eq-some redactor.config.mask_home redactor.home home masked in
      IsHidden.below_home home rest plain set known stripped refl

  pub redact_path-IsHidden :
      (path : Str)
      → redactor.config.hash_paths ≡ true
      → starts_with path (chars "/") ≡ true
      → IsHidden path (redact_path redactor path)
  unfolding redact_path short_hash
  redact_path-IsHidden path hashed absolute =
      simp (hashed, absolute)
        (if-cases (IsHidden path) (is_sensitive_path redactor path) _ _
          (λ marked. IsHidden.sensitive marked refl)
          λ plain.
            map_or-cases (IsHidden path) (and_then (masked_home redactor) (strip_prefix path)) _ _
              (λ outside. IsHidden.elsewhere plain refl)
              λ rest inside. below_home-IsHidden path rest plain inside)
