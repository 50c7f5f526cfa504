-- ===== src/PostUseCase/Content.antt =====
-- What backend/crates/ferum-application/src/usecases/post_usecase.rs reads off the text of a post: the
-- attachments that it embeds, the users that it mentions, the words of the blacklist. A regular
-- expression is the scan that it asks for: matches from the left, none overlapping another.
use ferum_board.Prelude.{
  ℕ, zero, suc, ◌+◌, ◌-◌, Bool, false, not, ◌&&◌, ◌||◌, Option, none, some, List, [], ◌∷◌, ◌++◌,
  Text, ◌==◌, leb, if◌then◌else◌, any, all, map, keep, length, take, drop,
}
use ferum_board.Domain.User.{TrustLevel, new, basic, member, regular, leader}
use ferum_board.Text.{codes, text_eq, starts_with, distinct, is_empty, trim, lines, contains}

abbrev pub files_prefix : Text
files_prefix = codes "/files/"

abbrev pub namespace : Text
namespace = codes "post-attachments/"

-- `[0-9a-f]`.
abbrev pub is_hex : ℕ → Bool
is_hex c = (leb 48 c && leb c 57) || (leb 97 c && leb c 102)

-- `\.(?:jpg|png|webp|gif)`.
abbrev pub extension : Text → Option Text
extension s =
    if starts_with s (codes ".jpg")
    then some (codes ".jpg")
    else if starts_with s (codes ".png")
    then some (codes ".png")
    else if starts_with s (codes ".webp")
    then some (codes ".webp")
    else if starts_with s (codes ".gif")
    then some (codes ".gif")
    else none

abbrev pub with_extension : Text → Option Text → Option Text
with_extension hex none = none
with_extension hex (some e) = some (namespace ++ hex ++ e)

-- The key, where the text starts with a match.
unfoldable pub match_key : Text → Option Text
match_key s =
    let hex = take 32 (drop 24 s) in
    if starts_with s (files_prefix ++ namespace) && (length hex == 32 && all is_hex hex)
    then with_extension hex (extension (drop 56 s))
    else none

-- The keys of the matches, where so many characters belong to the match before.
unfoldable pub keys_from : ℕ → Text → List Text
unfolding match_key
keys_from n [] = []
keys_from (suc n) (c ∷ s) = keys_from n s
keys_from zero (c ∷ s) = elim (match_key (c ∷ s)) [
  | none ↦ keys_from 0 s
  | some key ↦ key ∷ keys_from (length files_prefix + length key - 1) s
]

-- The source's hash set is the list of its elements.
unfoldable pub extract_attachment_keys : Text → List Text
unfolding keys_from
extract_attachment_keys content = distinct (keys_from 0 content)

-- `[a-zA-Z0-9_]`.
abbrev is_word : ℕ → Bool
is_word c =
    (leb 97 c && leb c 122) || ((leb 65 c && leb c 90) || ((leb 48 c && leb c 57) || c == 95))

-- At most so many characters of a name.
abbrev word : ℕ → Text → Text
word zero s = []
word (suc n) [] = []
word (suc n) (c ∷ s) = let rest = word n s in if is_word c then c ∷ rest else []

-- `to_lowercase` on the characters of a name.
abbrev lower : ℕ → ℕ
lower c = if leb 65 c && leb c 90 then c + 32 else c

abbrev match_mention : Text → Option Text
match_mention [] = none
match_mention (c ∷ s) =
    let name = word 32 s in if c == 64 && leb 3 (length name) then some name else none

unfoldable pub mentions_from : ℕ → Text → List Text
mentions_from n [] = []
mentions_from (suc n) (c ∷ s) = mentions_from n s
mentions_from zero (c ∷ s) = elim (match_mention (c ∷ s)) [
  | none ↦ mentions_from 0 s
  | some name ↦ map lower name ∷ mentions_from (length name) s
]

unfoldable pub extract_mentions : Text → List Text
unfolding mentions_from
extract_mentions content = distinct (mentions_from 0 content)

-- `content_matches_blacklist`, for the text that is configured.
unfoldable pub matches_blacklist : (to_lowercase : Text → Text) (raw content_md : Text) → Bool
matches_blacklist to_lowercase raw content_md =
    if is_empty (trim raw)
    then false
    else any (λ kw. contains (to_lowercase content_md) (to_lowercase kw))
        (keep (λ kw. not (is_empty kw)) (map trim (lines raw)))

unfoldable pub parse_trust_level : Text → TrustLevel
parse_trust_level s =
    if text_eq s (codes "basic")
    then basic
    else if text_eq s (codes "member")
    then member
    else if text_eq s (codes "regular")
    then regular
    else if text_eq s (codes "leader")
    then leader
    else new
