-- ===== src/PostUseCase/References.antt =====
-- The reference counts of attachments: what they count, and what the updates of a post do to them.
pub mod Sync
pub mod Operations
pub mod Texts
pub mod Outcomes
use ferum_board.Prelude.{
  ℕ, ◌+◌, ◌-◌, ◌≡◌, refl, sym, ap, ◌∙◌, ◌≢◌, Bool, true, false, not, ◌&&◌, Option, none, some, List,
  [], ◌∷◌, Text, arith, ◌==◌, if◌then◌else◌, count_if, Option-cases, Bool-cases, ==_iff, subst, inl,
  inr, find_row, update_rows, total, keep,
}
use ferum_board.Domain.Forum.{Post}
use ferum_board.Store.{Db, StoredFile}
use ferum_board.Repo.Posts
use ferum_board.Repo.Files.{has_key, plus_one, minus_one}
use ferum_board.Text.{text_eq, mem_text, distinct}
use ferum_board.Text.Laws.{text_eq_iff, times, times-distinct, times-difference, mem_text-distinct}
use ferum_board.PostUseCase.{difference}
use ferum_board.PostUseCase.Content.{extract_attachment_keys}

-- 1 where a text embeds the attachment, else 0.
unfoldable pub embeds : Text → Text → ℕ
embeds key content = count_if (mem_text key (extract_attachment_keys content))

-- The posts that embed the attachment and are not deleted.
unfoldable pub embeddings : Text → List Post → ℕ
embeddings key posts = total (λ p. if p.is_deleted then 0 else embeds key p.content_md) posts

-- Each file's count is the number of posts that embed it and are not deleted.
pub record RefsOk (posts : List Post) (files : List StoredFile) : Type 0 where
  pub counted :
      (key : Text) (f : StoredFile)
      → find_row (has_key key) files ≡ some f
      → f.ref_count ≡ embeddings key posts

unfoldable pub inc_all : List Text → List StoredFile → List StoredFile
inc_all [] fs = fs
inc_all (k ∷ ks) fs = inc_all ks (update_rows (has_key k) plus_one fs)

unfoldable pub dec_all : List Text → List StoredFile → List StoredFile
dec_all [] fs = fs
dec_all (k ∷ ks) fs = dec_all ks (update_rows (has_key k) minus_one fs)

-- The files after the counts have followed a post from one text to another.
unfoldable pub synced : (old new : Text) → List StoredFile → List StoredFile
synced old new fs =
    let old_keys = extract_attachment_keys old in
    let new_keys = extract_attachment_keys new in
    dec_all (difference old_keys new_keys) (inc_all (difference new_keys old_keys) fs)

-- The count under a key.
abbrev count_of : Option StoredFile → Option ℕ
count_of none = none
count_of (some f) = some f.ref_count

abbrev count_at : Text → List StoredFile → Option ℕ
count_at key fs = count_of (find_row (has_key key) fs)

abbrev plus : Option ℕ → ℕ → Option ℕ
plus none n = none
plus (some a) n = some (a + n)

abbrev minus : Option ℕ → ℕ → Option ℕ
minus none n = none
minus (some a) n = some (a - n)

inc_one :
    (key k : Text) (fs : List StoredFile)
    → count_at key (update_rows (has_key k) plus_one fs)
      ≡ plus (count_at key fs) (count_if (text_eq k key))
unfolding find_row update_rows
inc_one key k [] = refl
inc_one key k (f ∷ fs) =
    ground (arith, inc_one key k fs, text_eq_iff f.key k, text_eq_iff f.key key, text_eq_iff k key)

dec_one :
    (key k : Text) (fs : List StoredFile)
    → count_at key (update_rows (has_key k) minus_one fs)
      ≡ minus (count_at key fs) (count_if (text_eq k key))
unfolding find_row update_rows
dec_one key k [] = refl
dec_one key k (f ∷ fs) =
    ground (arith, dec_one key k fs, text_eq_iff f.key k, text_eq_iff f.key key, text_eq_iff k key)

inc_all_lem :
    (key : Text) (ks : List Text) (fs : List StoredFile)
    → count_at key (inc_all ks fs) ≡ plus (count_at key fs) (times key ks)
unfolding inc_all times
inc_all_lem key [] fs = ground arith
inc_all_lem key (k ∷ ks) fs =
    inc_all_lem key ks (update_rows (has_key k) plus_one fs) ∙ ground (arith, inc_one key k fs)

dec_all_lem :
    (key : Text) (ks : List Text) (fs : List StoredFile)
    → count_at key (dec_all ks fs) ≡ minus (count_at key fs) (times key ks)
unfolding dec_all times
dec_all_lem key [] fs = ground arith
dec_all_lem key (k ∷ ks) fs =
    dec_all_lem key ks (update_rows (has_key k) minus_one fs) ∙ ground (arith, dec_one key k fs)

-- A key is in a text's attachments once or not at all.
times-extract :
    (key content : Text) → times key (extract_attachment_keys content) ≡ embeds key content
unfolding extract_attachment_keys embeds
times-extract key content = times-distinct key _ ∙ ap count_if (sym (mem_text-distinct key _))

-- What the counts of one key come to.
synced_lem :
    (key old new : Text) (fs : List StoredFile)
    → count_at key (synced old new fs)
      ≡ minus
          (plus (count_at key fs) (embeds key new - embeds key old))
          (embeds key old - embeds key new)
unfolding synced embeds
synced_lem key old new fs =
    dec_all_lem key (difference (extract_attachment_keys old) (extract_attachment_keys new)) _
    ∙ ground (
      arith,
      inc_all_lem key (difference (extract_attachment_keys new) (extract_attachment_keys old)) fs,
      times-difference key (extract_attachment_keys new) (extract_attachment_keys old),
      times-difference key (extract_attachment_keys old) (extract_attachment_keys new),
      times-extract key old,
      times-extract key new,
    )

-- Where one post goes from a text to another, following it keeps the counts right.
pub synced-RefsOk :
    (old new : Text) (posts posts' : List Post) (fs : List StoredFile)
    → RefsOk posts fs
    → ((key : Text)
        → embeddings key posts' + embeds key old ≡ embeddings key posts + embeds key new)
    → RefsOk posts' (synced old new fs)
synced-RefsOk old new posts posts' fs ok moved = record {
  counted = λ key f found. elim (Option-cases (find_row (has_key key) fs)) [
    | inl absent ↦ ground (arith, synced_lem key old new fs)
    | inr (g, present) ↦
        ground (arith, synced_lem key old new fs, ok.counted key g present, moved key)
  ];
}

-- Identifiers are distinct: `id` is the primary key.
abbrev pub IsNewId : ℕ → List Post → Type 0
IsNewId id [] = Unit
IsNewId id (p ∷ posts) = (p.id ≢ id) × IsNewId id posts

abbrev pub HasDistinctIds : List Post → Type 0
HasDistinctIds [] = Unit
HasDistinctIds (p ∷ posts) = IsNewId p.id posts × HasDistinctIds posts

module _ (key : Text) (id : ℕ) (f : Post → Post) where
  update-IsNewId :
      (posts : List Post)
      → IsNewId id posts
      → embeddings key (update_rows (Posts.has_id id) f posts) ≡ embeddings key posts
  unfolding embeddings total update_rows
  update-IsNewId [] h = refl
  update-IsNewId (p ∷ posts) h = ground (arith, update-IsNewId posts h.1)

  -- Changing one row changes its own share.
  pub embeddings-update :
      (posts : List Post) (p : Post)
      → HasDistinctIds posts
      → find_row (Posts.has_id id) posts ≡ some p
      → embeddings key (update_rows (Posts.has_id id) f posts)
          + (if p.is_deleted then 0 else embeds key p.content_md)
        ≡ embeddings key posts + (if (f p).is_deleted then 0 else embeds key (f p).content_md)
  unfolding embeddings total update_rows find_row
  embeddings-update [] p h found = cc
  embeddings-update (q ∷ posts) p h found = elim (Bool-cases (q.id == id)) [
    | inl same ↦
        let rest =
          update-IsNewId posts (subst (λ i. IsNewId i posts) ((==_iff q.id id).0 same) h.0) in
        let e : q ≡ p = ground arith in
        ground (
          arith,
          same,
          rest,
          ap (λ x. if x.is_deleted then 0 else embeds key x.content_md) e,
          ap (λ x. if (f x).is_deleted then 0 else embeds key (f x).content_md) e,
        )
    | inr other ↦
        let found' : find_row (Posts.has_id id) posts ≡ some p = ground arith in
        ground (arith, other, embeddings-update posts p h.1 found')
  ]
