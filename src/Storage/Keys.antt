-- ===== src/Storage/Keys.antt =====
-- The key that an attachment is stored under is the one that a post which embeds it is read to refer to.
use ferum_board.Prelude.{
  ℕ, ◌+◌, ◌-◌, String, ◌≡◌, refl, sym, ◌∙◌, ap, subst, Bool, true, false, ◌||◌, Option, none, some,
  List, [], ◌∷◌, ◌++◌, Text, arith, all, length, take, drop, str_eq, if◌then◌else◌,
}
use ferum_board.Storage.{cas_key, content_type_to_ext, validate_image_content_type}
use ferum_board.Text.{codes, starts_with}
use ferum_board.PostUseCase.Content.{
  match_key, keys_from, is_hex, extension, namespace, files_prefix,
}
use mathlib.Core.List.{append_assoc}

take-append : (xs ys : Text) → take (length xs) (xs ++ ys) ≡ xs
take-append [] ys = refl
take-append (x ∷ xs) ys = ap (λ t. x ∷ t) (take-append xs ys)

drop-append : (xs ys : Text) → drop (length xs) (xs ++ ys) ≡ ys
drop-append [] ys = refl
drop-append (x ∷ xs) ys = drop-append xs ys

-- The characters of a match are passed over.
keys_from-append : (xs rest : Text) → keys_from (length xs) (xs ++ rest) ≡ keys_from 0 rest
unfolding keys_from
keys_from-append [] rest = refl
keys_from-append (x ∷ xs) rest = keys_from-append xs rest

-- A text that starts with an address of an attachment matches.
match_key-attachment :
    (hex e rest : Text)
    → length hex ≡ 32
    → all is_hex hex ≡ true
    → extension (e ++ rest) ≡ some e
    → match_key (files_prefix ++ (namespace ++ (hex ++ (e ++ rest))))
      ≡ some (namespace ++ (hex ++ e))
unfolding match_key starts_with
match_key-attachment hex e rest len digits ext =
    let front : take 32 (hex ++ (e ++ rest)) ≡ hex =
      subst (λ n. take n (hex ++ (e ++ rest)) ≡ hex) len (take-append hex (e ++ rest)) in
    let back : drop 32 (hex ++ (e ++ rest)) ≡ e ++ rest =
      subst (λ n. drop n (hex ++ (e ++ rest)) ≡ e ++ rest) len (drop-append hex (e ++ rest)) in
    rw front (rw back (rw len (rw digits (rw ext refl))))

length-append : (xs ys : Text) → length (xs ++ ys) ≡ length xs + length ys
length-append [] ys = omega arith
length-append (x ∷ xs) ys = omega (arith, length-append xs ys)

-- What follows the first character of an address.
abbrev after_slash : Text → Text → Text
after_slash hex e = drop 1 files_prefix ++ (namespace ++ (hex ++ e))

keys_from-match :
    (c : ℕ) (s key : Text)
    → match_key (c ∷ s) ≡ some key
    → keys_from 0 (c ∷ s) ≡ key ∷ keys_from (length files_prefix + length key - 1) s
unfolding keys_from
keys_from-match c s key h =
    ap
      (λ (o : Option Text). elim o [
        | none ↦ keys_from 0 s
        | some k ↦ k ∷ keys_from (length files_prefix + length k - 1) s
      ])
      h

keys_from-attachment :
    (hex e rest : Text)
    → length hex ≡ 32
    → all is_hex hex ≡ true
    → extension (e ++ rest) ≡ some e
    → keys_from 0 (files_prefix ++ (namespace ++ (hex ++ (e ++ rest))))
      ≡ (namespace ++ (hex ++ e)) ∷ keys_from 0 rest
keys_from-attachment hex e rest len digits ext =
    let key = namespace ++ (hex ++ e) in
    let regrouped : after_slash hex e ++ rest
        ≡ drop 1 files_prefix ++ (namespace ++ (hex ++ (e ++ rest))) =
      ap (λ (t : Text). drop 1 files_prefix ++ (namespace ++ t)) (append_assoc hex e rest) in
    keys_from-match b'/' (drop 1 files_prefix ++ (namespace ++ (hex ++ (e ++ rest)))) key
      (match_key-attachment hex e rest len digits ext)
    ∙ ap (λ (ks : List Text). key ∷ ks)
        (ap (λ (n : ℕ). keys_from n (drop 1 files_prefix ++ (namespace ++ (hex ++ (e ++ rest)))))
            (omega (arith, length-append hex e))
          ∙ ap (keys_from (length (after_slash hex e))) (sym regrouped)
          ∙ keys_from-append (after_slash hex e) rest)

-- The extension of an image, and its dot.
abbrev dotted : String → Text
dotted ct = codes "." ++ content_type_to_ext ct

abbrev one_of : (j p w g : Bool) → Text → Text
one_of j p w g other =
    if j
    then codes "jpg"
    else if p
    then codes "png"
    else if w
    then codes "webp"
    else if g
    then codes "gif"
    else other

extension-one_of :
    (j p w g : Bool) (other rest : Text)
    → (j || (p || (w || g))) ≡ true
    → extension ((codes "." ++ one_of j p w g other) ++ rest)
      ≡ some (codes "." ++ one_of j p w g other)
unfolding starts_with
extension-one_of true p w g other rest h = refl
extension-one_of false true w g other rest h = refl
extension-one_of false false true g other rest h = refl
extension-one_of false false false true other rest h = refl
extension-one_of false false false false other rest h = cc

or_assoc : (a b c : Bool) → (a || (b || c)) ≡ true → ((a || b) || c) ≡ true
or_assoc true b c h = refl
or_assoc false b c h = h

extension-dotted :
    (ct : String) (rest : Text)
    → validate_image_content_type ct ≡ true
    → extension (dotted ct ++ rest) ≡ some (dotted ct)
unfolding content_type_to_ext validate_image_content_type starts_with
extension-dotted ct rest h =
    extension-one_of (str_eq ct "image/jpeg" || str_eq ct "image/jpg") (str_eq ct "image/png")
      (str_eq ct "image/webp") (str_eq ct "image/gif") _ rest
      (or_assoc (str_eq ct "image/jpeg") (str_eq ct "image/jpg") _ h)

-- Where a digest is 32 hexadecimal digits, a text that starts with the address of an attachment which was
-- stored for an image refers to the attachment's key, and otherwise to what the rest of the text refers to.
pub keys_from-cas_key :
    (digest : List ℕ → Text) (bytes : List ℕ) (ct : String) (rest : Text)
    → length (digest bytes) ≡ 32
    → all is_hex (digest bytes) ≡ true
    → validate_image_content_type ct ≡ true
    → keys_from 0 (codes "/files/" ++ (cas_key digest (codes "post-attachments") bytes ct ++ rest))
      ≡ cas_key digest (codes "post-attachments") bytes ct ∷ keys_from 0 rest
unfolding cas_key
keys_from-cas_key digest bytes ct rest len digits h =
    ap (λ (t : Text). keys_from 0 (files_prefix ++ (namespace ++ t)))
      (append_assoc (digest bytes) (dotted ct) rest)
    ∙ keys_from-attachment (digest bytes) (dotted ct) rest len digits (extension-dotted ct rest h)
