-- ===== src/CategoryUseCase/Shown.antt =====
-- The index of the forum as it is read from the database.
use ferum_board.Prelude.{
  ℕ, ◌+◌, ◌≡◌, refl, sym, ◌∙◌, ap, subst, Bool, true, ◌||◌, Option, some, List, [], ◌∷◌, ◌==◌, any,
  keep, map, arith, Bool-cases, inl, inr, if◌then◌else◌, ==_iff,
}
use ferum_board.Domain.Error.{ok}
use ferum_board.Domain.AuthUser.{AuthUser}
use ferum_board.Domain.Forum.{Category, Thread}
use ferum_board.Store.{Db, Env}
use ferum_board.Exec.{World, pure, tick}
use ferum_board.Exec.Runs.{Quiet, bind-run, read-run, step-run}
use ferum_board.Repo.Categories
use ferum_board.Repo.Categories.{count_threads, by_position, insert_by_position}
use ferum_board.Repo.Threads
use ferum_board.Repo.Threads.{recent_rows, by_id, rows_limit, in_category}
use ferum_board.Repo.Config
use ferum_board.Repo.Config.Runs.{get_config_u64-run}
use ferum_board.CategoryUseCase.{
  ForumIndexItem, item, count_of, index_items, is_top, can_see, query_index, index_of,
  get_forum_index, default_index_threads,
}
use ferum_board.CategoryUseCase.Index.{same_id, distinct_ids, is_sub, index_items_lem}
use ferum_board.CategoryUseCase.Recent.{recent_of, keep-recent_rows, any-by_id}

-- What the index says of a category: the threads of it and of its visible subcategories by number, and its
-- first threads, of rows in some order.
abbrev pub entry : Db → (limit : ℕ) → List Thread → List Category → Category → ForumIndexItem
entry db limit rows visible c = record {
  category = c;
  thread_count = count_threads c.id db.threads;
  subcategories =
      map (λ (s : Category). (s, count_threads s.id db.threads)) (keep (is_sub c.id) visible);
  recent_threads = recent_of c.id limit rows;
}

-- The rows that a count is made for.
abbrev counts_of : Db → List Category → List (ℕ × ℕ)
counts_of db cs = map (λ (c : Category). (c.id, count_threads c.id db.threads)) cs

any-counts_of :
    (db : Db) (id : ℕ) (cs : List Category)
    → any (λ (e : ℕ × ℕ). e.0 == id) (counts_of db cs) ≡ any (same_id id) cs
any-counts_of db id [] = refl
any-counts_of db id (c ∷ cs) = ap (λ b. c.id == id || b) (any-counts_of db id cs)

count_of-counts_of :
    (db : Db) (id : ℕ) (cs : List Category)
    → any (same_id id) cs ≡ true
    → count_of (counts_of db cs) id ≡ count_threads id db.threads
unfolding count_of
count_of-counts_of db id [] h = cc
count_of-counts_of db id (c ∷ cs) h = elim (Bool-cases (any (same_id id) cs)) [
  | inl later ↦ rw (any-counts_of db id cs ∙ later) (count_of-counts_of db id cs later)
  | inr last ↦
      let e : (c.id == id) ≡ true = ground (arith, h, last) in
      rw (any-counts_of db id cs ∙ last)
        (rw e (ap (λ i. count_threads i db.threads) ((==_iff c.id id).0 e)))
]

-- Membership by identifiers, through the orders and the filters of the queries.
any-insert_by_position :
    (p : Category → Bool) (c : Category) (cs : List Category)
    → any p (insert_by_position c cs) ≡ (p c || any p cs)
unfolding insert_by_position
any-insert_by_position p c [] = refl
any-insert_by_position p c (d ∷ ds) = ground (arith, any-insert_by_position p c ds)

any-by_position : (p : Category → Bool) (cs : List Category) → any p (by_position cs) ≡ any p cs
unfolding by_position
any-by_position p [] = refl
any-by_position p (c ∷ cs) =
    any-insert_by_position p c (by_position cs) ∙ ap (λ b. p c || b) (any-by_position p cs)

any-of_keep :
    (p q : Category → Bool) (cs : List Category) → any p (keep q cs) ≡ true → any p cs ≡ true
any-of_keep p q [] h = h
any-of_keep p q (c ∷ cs) h = ground (arith, any-of_keep p q cs)

any-ids :
    (id : ℕ) (cs : List Category)
    → any (λ i. i == id) (map (λ (c : Category). c.id) cs) ≡ any (same_id id) cs
any-ids id [] = refl
any-ids id (c ∷ cs) = ap (λ b. c.id == id || b) (any-ids id cs)

any-named :
    (id : ℕ) (ids : List ℕ) (cs : List Category)
    → any (same_id id) cs ≡ true
    → any (λ i. i == id) ids ≡ true
    → any (same_id id) (keep (λ c. any (λ i. i == c.id) ids) cs) ≡ true
any-named id ids [] h k = h
any-named id ids (c ∷ cs) h k = elim (Bool-cases (c.id == id)) [
  | inl same ↦
      let e : any (λ i. i == c.id) ids ≡ true =
        subst (λ x. any (λ i. i == x) ids ≡ true) (sym ((==_iff c.id id).0 same)) k in
      rw e (rw same refl)
  | inr other ↦ ground (arith, any-named id ids cs, h, k, other)
]

-- Functions that agree on the rows of a list, as their identifiers tell them, map it to the same list.
map-same :
    {B : Type 0} (f g : Category → B) (cs : List Category)
    → ((c : Category) → any (same_id c.id) cs ≡ true → f c ≡ g c)
    → map f cs ≡ map g cs
map-same f g [] h = refl
map-same f g (c ∷ cs) h =
    ap (λ x. x ∷ map f cs) (h c (ground (arith, ==_iff c.id c.id)))
    ∙ ap (λ xs. g c ∷ xs) (map-same f g cs (λ d k. h d (ground (arith, k))))

-- What the two queries of the index give.
abbrev counts : Db → List Category → List (ℕ × ℕ)
counts db visible =
    counts_of db
      (keep (λ c. any (λ i. i == c.id) (map (λ (c : Category). c.id) visible)) db.categories)

abbrev recent : ℕ → List Thread → List Category → List Thread
recent limit rows visible =
    recent_rows (by_id (map (λ (c : Category). c.id) (keep is_top visible))) limit rows

module _ (db : Db) (limit : ℕ) (rows : List Thread) (visible : List Category)
    (stored : (id : ℕ)
      → any (same_id id) visible ≡ true
      → any (same_id id) db.categories ≡ true) where
  count-visible :
      (id : ℕ)
      → any (same_id id) visible ≡ true
      → count_of (counts db visible) id ≡ count_threads id db.threads
  count-visible id h =
      count_of-counts_of db id _
        (any-named id _ db.categories (stored id h) (any-ids id visible ∙ h))

  recent-visible :
      (id : ℕ)
      → any (same_id id) (keep is_top visible) ≡ true
      → keep (in_category id) (recent limit rows visible) ≡ recent_of id limit rows
  recent-visible id h =
      keep-recent_rows id _ limit rows
      ∙ ap (λ b. if b then recent_of id limit rows else [])
          (any-by_id (λ i. i == id) _ ∙ any-ids id (keep is_top visible) ∙ h)

  item-entry :
      (c : Category)
      → any (same_id c.id) (keep is_top visible) ≡ true
      → item
          (counts db visible)
          c
          (keep (is_sub c.id) visible)
          (keep (in_category c.id) (recent limit rows visible))
        ≡ entry db limit rows visible c
  item-entry c h = λ i. record {
    category = c;
    thread_count = count-visible c.id (any-of_keep (same_id c.id) is_top visible h) i;
    subcategories =
        map-same (λ (s : Category). (s, count_of (counts db visible) s.id))
          (λ (s : Category). (s, count_threads s.id db.threads)) (keep (is_sub c.id) visible)
          (λ s k.
            ap (λ n. (s, n))
              (count-visible s.id (any-of_keep (same_id s.id) (is_sub c.id) visible k)))
          i;
    recent_threads = recent-visible c.id h i;
  }

  pub index_items-entries :
      distinct_ids visible ≡ true
      → index_items (counts db visible) visible (recent limit rows visible)
        ≡ map (entry db limit rows visible) (keep is_top visible)
  index_items-entries d =
      index_items_lem (counts db visible) visible (recent limit rows visible) d
      ∙ map-same _ _ (keep is_top visible) item-entry

-- The number of threads that the configuration asks for.
abbrev pub index_limit : Env → Db → ℕ
index_limit env db =
    Config.count_or env.parse_u64
      (some (Config.lookup "forum_index_threads_per_category" db.config)) default_index_threads

-- The rows of the threads as the fourth call of the index, which is the one that reads them, meets them.
abbrev pub scanned : Env → World → List Thread
scanned env w = env.scan_threads (w.calls + 1 + 1 + 1) w.db.threads

-- The categories that a reader sees, in the order of their positions.
abbrev pub visible_to : Option AuthUser → Db → List Category
visible_to actor db = keep (can_see actor) (by_position db.categories)

visible-stored :
    (actor : Option AuthUser) (db : Db) (id : ℕ)
    → any (same_id id) (visible_to actor db) ≡ true
    → any (same_id id) db.categories ≡ true
visible-stored actor db id h =
    sym (any-by_position (same_id id) db.categories)
    ∙ any-of_keep (same_id id) (can_see actor) (by_position db.categories) h

abbrev met : Env → World → List Thread
met env w = env.scan_threads (w.calls + 1 + 1) w.db.threads

query_index-run :
    (env : Env) (w : World)
    → Quiet env
    → (visible : List Category)
    → ((id : ℕ) → any (same_id id) visible ≡ true → any (same_id id) w.db.categories ≡ true)
    → distinct_ids visible ≡ true
    → (query_index visible env w).0
      ≡ ok (
          map
            (entry w.db (rows_limit (index_limit env w.db)) (met env w) visible)
            (keep is_top visible))
unfolding query_index Categories.count_threads_by_categories Threads.list_recent_by_categories pure
query_index-run env w q visible stored d =
    ap (λ r. r.0)
      (bind-run env w (Config.get_config_u64 _ default_index_threads) _
          (get_config_u64-run env w _ default_index_threads (q w.calls))
        ∙ bind-run env (tick w) (Categories.count_threads_by_categories _) _
            (read-run env (tick w) (q _) _)
        ∙ bind-run env (tick (tick w))
            (Threads.list_recent_by_categories (map (λ (c : Category). c.id) (keep is_top visible))
              (index_limit env w.db))
            (λ rows. pure (index_items (counts w.db visible) visible rows))
            (step-run env (tick (tick w)) (q _) _))
    ∙ ap ok
        (index_items-entries w.db (rows_limit (index_limit env w.db)) (met env w) visible stored d)

-- Where no call fails and the visible categories have distinct identifiers, the index shows each visible
-- category of the top, in the order of the positions, with the number of its undeleted threads, its
-- visible subcategories and their numbers, and its first undeleted threads by rank, as many as the
-- configuration asks for, or none where that number is 2^63 or more. Categories of one position come in
-- the order of the table, and threads of one rank in the order in which the call met them.
pub get_forum_index_lem :
    (env : Env) (w : World) (actor : Option AuthUser)
    → Quiet env
    → distinct_ids (visible_to actor w.db) ≡ true
    → (get_forum_index actor env w).0
      ≡ ok (
          map
            (entry w.db (rows_limit (index_limit env w.db)) (scanned env w) (visible_to actor w.db))
            (keep is_top (visible_to actor w.db)))
unfolding get_forum_index Categories.list_all pure
get_forum_index_lem env w actor q d =
    ap (λ r. r.0)
      (bind-run env w Categories.list_all (λ every. index_of (keep (can_see actor) every))
        (read-run env w (q w.calls) (λ db. by_position db.categories)))
    ∙ split (visible_to actor w.db) (visible-stored actor w.db) d
  where
    split :
        (visible : List Category)
        → ((id : ℕ) → any (same_id id) visible ≡ true → any (same_id id) w.db.categories ≡ true)
        → distinct_ids visible ≡ true
        → (index_of visible env (tick w)).0
          ≡ ok (
              map
                (entry w.db (rows_limit (index_limit env w.db)) (scanned env w) visible)
                (keep is_top visible))
    split [] s k = refl
    split (c ∷ cs) s k = query_index-run env (tick w) q (c ∷ cs) s k
