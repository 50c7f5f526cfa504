-- ===== src/Infra/Package/Identifier.antt =====
-- An identifier that the manifest's check lets through names a directory as it is.
use ferum_board.Prelude.{
  ℕ, ◌≡◌, refl, sym, ◌∙◌, ap, Bool, true, false, not, ◌||◌, [], ◌∷◌, ◌==◌, Text, arith, all, any,
  ltb, if◌then◌else◌, ◌≢◌, ==_iff,
}
use ferum_board.Domain.Error.{AppError, Result, ok, err}
use ferum_board.Text.{codes, is_empty, byte_len}
use ferum_board.Infra.Package.{
  is_slug_char, sanitize_slug, validate_plugin_id, first_is_dot, last_is_dot,
}

module _ (is_alphanumeric : ℕ → Bool) where
  same_slug :
      (id : Text)
      → all (is_slug_char is_alphanumeric) id ≡ true
      → sanitize_slug is_alphanumeric id ≡ id
  unfolding sanitize_slug
  same_slug [] h = refl
  same_slug (c ∷ s) h = ground (arith, same_slug s)

  no_slash :
      (id : Text)
      → is_alphanumeric b'/' ≡ false
      → all (is_slug_char is_alphanumeric) id ≡ true
      → any (λ c. c == b'/') id ≡ false
  no_slash [] plain h = refl
  no_slash (c ∷ s) plain h = ground (arith, no_slash s plain, ==_iff c b'/', ap is_alphanumeric)

-- The parts of a check that passes.
checked :
    (a b c : Bool) (e f g : AppError)
    → (let r : Result (Unit {0}) =
          if a then err e else if not b then err f else if c then err g else ok tt in
        r)
      ≡ ok tt
    → (a ≡ false) × (b ≡ true) × (c ≡ false)
checked true b c e f g h = cc
checked false false c e f g h = cc
checked false true true e f g h = cc
checked false true false e f g h = (refl, refl, refl)

or_false : (a b : Bool) → (a || b) ≡ false → (a ≡ false) × (b ≡ false)
or_false a b h = ground arith

-- An identifier that the check lets through is the name of its directory as it stands: nothing in it is
-- replaced, it holds no separator, and it is neither empty nor one of the names `.` and `..`, where a
-- separator is not alphanumeric.
pub validate_plugin_id-is_name :
    (is_alphanumeric : ℕ → Bool) (id : Text)
    → is_alphanumeric b'/' ≡ false
    → validate_plugin_id is_alphanumeric id ≡ ok tt
    → (sanitize_slug is_alphanumeric id ≡ id)
      × (any (λ c. c == b'/') id ≡ false)
      × (id ≢ [])
      × (id ≢ codes ".")
      × (id ≢ codes "..")
unfolding validate_plugin_id
validate_plugin_id-is_name is_alphanumeric id plain h =
    let (a, b, c) =
      checked (is_empty id || ltb 256 (byte_len id)) (all (is_slug_char is_alphanumeric) id)
        (first_is_dot id || last_is_dot id) _ _ _ h in
    let full = (or_false (is_empty id) (ltb 256 (byte_len id)) a).0 in
    let undotted = (or_false (first_is_dot id) (last_is_dot id) c).0 in
    (
      same_slug is_alphanumeric id b,
      no_slash is_alphanumeric id plain b,
      (λ e. differ (sym (ap is_empty e) ∙ full)),
      (λ e. differ (sym (ap first_is_dot e) ∙ undotted)),
      (λ e. differ (sym (ap first_is_dot e) ∙ undotted)),
    )
  where
    differ : true ≡ false → ⊥
    differ e = cc
