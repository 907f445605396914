-- ===== src/ApiKey/Pages.antt =====
-- The pages of List of internal/repository/apikey.
use mathlib.Core.List.{map-append}
use be_aether_node.Base.{
  subst, sym, ℕ, zero, suc, ◌-◌, ◌*◌, ◌≤◌, ◌<◌, String, true, false, List, [], ◌++◌, ◌≡◌, refl, ap,
  ◌∙◌, map, arith, length,
}
use be_aether_node.Base.Int.{pos}
use be_aether_node.Store.{
  Env, World, ApikeyRow, ask, query, limit_offset, pure, ◌>>=◌, ok, err, Result, time_or_zero,
  newest_first, or_nil,
}
use be_aether_node.Store.Ordering.{Distinct, order_desc-order_desc}
use be_aether_node.Store.Sql.{
  ListParams, select, order_desc, page, pages, positive_or, to_int32, total_pages,
}
use be_aether_node.Store.Paging.{
  pages-all, length-order_desc, length-select_mono, total_pages-enough, to_int32_of_small,
}
use be_aether_node.ApiKey.{
  ApiKey, ListResult, list, list_rows, count_rows, live, listed, search_pattern, api_key_from_db,
}

-- The rows that a search goes through, the newest first.
abbrev pub matching : Env → World → ListParams → List ApikeyRow
matching env w params =
    order_desc (λ r. time_or_zero r.created_at)
      (select (listed env (search_pattern params)) w.api_keys)

-- The request for a page p + 1 of l + 1 keys.
abbrev pub page_request : ListParams → ℕ → ℕ → ListParams
page_request params l p = record params { limit = pos (suc l); page = pos (suc p) }

offset_small :
    (l p : ℕ) → suc p * suc l < 2147483648 → to_int32 ((suc p - 1) * suc l) ≡ pos (p * suc l)
offset_small l p small =
    to_int32_of_small _ (grind (arith, small)) ∙ ap (λ k. pos (k * suc l)) (omega arith)

limit_small : (l p : ℕ) → suc p * suc l < 2147483648 → to_int32 (suc l) ≡ pos (suc l)
limit_small l p small = to_int32_of_small (suc l) (grind (arith, small))

-- No two keys that match were made at the same time.
abbrev pub DistinctTimes : Env → World → ListParams → Type 0
DistinctTimes env w params =
    Distinct (λ r. time_or_zero r.created_at)
      (select (listed env (search_pattern params)) w.api_keys)

-- One page, from a database that answers.
list_lem :
    (params : ListParams) (l p : ℕ) (env : Env) (w : World)
    → suc p * suc l < 2147483648
    → DistinctTimes env w params
    → env.fault w.steps ≡ false
    → env.fault (suc w.steps) ≡ false
    → (list (page_request params l p) env w).0
      ≡ ok (record {
        api_keys = map (api_key_from_db env) (page (suc l) (p * suc l) (matching env w params));
        total = length (select live w.api_keys);
        page = suc p;
        limit = suc l;
        total_page = total_pages (length (select live w.api_keys)) (suc l);
      })
unfolding list list_rows count_rows ask query limit_offset pure ◌>>=◌ positive_or newest_first
list_lem params l p env w small distinct f0 f1 =
    rw
      (
        limit_small l p small,
        offset_small l p small,
        ← order_desc-order_desc (λ r. time_or_zero r.created_at)
            (λ r. env.row_rank w.steps (or_nil r.guid))
            (select (listed env (search_pattern params)) w.api_keys) distinct,
      )
      (ground (arith, f0, f1))

-- No statement fails.
abbrev pub Answers : Env → Type 0
Answers env = (n : ℕ) → env.fault n ≡ false

list-api_keys :
    (params : ListParams) (l p : ℕ) (env : Env) (w : World)
    → suc p * suc l < 2147483648
    → Answers env
    → (list (page_request params l p) env w).1.api_keys ≡ w.api_keys
unfolding list list_rows count_rows ask query limit_offset pure ◌>>=◌ positive_or
list-api_keys params l p env w small answers =
    rw (limit_small l p small, offset_small l p small)
      (ground (arith, answers w.steps, answers (suc w.steps)))

keys_of : Result ListResult → List ApiKey
keys_of (ok r) = r.api_keys
keys_of (err e) = []

-- The state after the pages 1 to n of l + 1 keys were asked for, one after the other.
unfoldable pub after_pages : ListParams → ℕ → ℕ → Env → World → World
after_pages params l zero env w = w
after_pages params l (suc n) env w =
    (list (page_request params l n) env (after_pages params l n env w)).1

-- The keys of these pages.
pub keys_of_pages : ListParams → ℕ → ℕ → Env → World → List ApiKey
keys_of_pages params l zero env w = []
keys_of_pages params l (suc n) env w =
    keys_of_pages params l n env w
    ++ keys_of (list (page_request params l n) env (after_pages params l n env w)).0

after_pages-api_keys :
    (params : ListParams) (l n : ℕ) (env : Env) (w : World)
    → Answers env
    → n * suc l < 2147483648
    → (after_pages params l n env w).api_keys ≡ w.api_keys
unfolding after_pages
after_pages-api_keys params l zero env w answers small = refl
after_pages-api_keys params l (suc n) env w answers small =
    list-api_keys params l n env (after_pages params l n env w) small answers
    ∙ after_pages-api_keys params l n env w answers (grind (arith, small))

-- A page asked for after others.
later_page :
    (params : ListParams) (l n : ℕ) (env : Env) (w v : World)
    → v.api_keys ≡ w.api_keys
    → Answers env
    → DistinctTimes env w params
    → suc n * suc l < 2147483648
    → keys_of (list (page_request params l n) env v).0
      ≡ map (api_key_from_db env) (page (suc l) (n * suc l) (matching env w params))
unfolding keys_of
later_page params l n env w v same answers distinct small =
    let distinct' : DistinctTimes env v params =
      subst
        (λ rows.
          Distinct (λ r. time_or_zero r.created_at)
            (select (listed env (search_pattern params)) rows))
        (sym same) distinct in
    ap keys_of (list_lem params l n env v small distinct' (answers _) (answers _))
    ∙ ap
        (λ rows. map (api_key_from_db env) (
          page (suc l) (n * suc l) (
            order_desc (λ r. time_or_zero r.created_at)
              (select (listed env (search_pattern params)) rows))))
        same

keys_of_pages_lem :
    (params : ListParams) (l n : ℕ) (env : Env) (w : World)
    → Answers env
    → DistinctTimes env w params
    → n * suc l < 2147483648
    → keys_of_pages params l n env w
      ≡ map (api_key_from_db env) (pages (suc l) n (matching env w params))
unfolding keys_of_pages pages
keys_of_pages_lem params l zero env w answers distinct small = refl
keys_of_pages_lem params l (suc n) env w answers distinct small =
    rw
      (
        later_page params l n env w (after_pages params l n env w)
            (after_pages-api_keys params l n env w answers (grind (arith, small))) answers distinct
            small,
        keys_of_pages_lem params l n env w answers distinct (grind (arith, small)),
      )
      (sym (map-append (api_key_from_db env) _ _))

listed-live :
    (env : Env) (pattern : String) (row : ApikeyRow)
    → listed env pattern row ≡ true
    → live row ≡ true
unfolding listed
listed-live env pattern row h = ground (arith, h)

pages_of : Result ListResult → ℕ
pages_of (ok r) = r.total_page
pages_of (err e) = 0

-- Rows that match are rows that are not deleted.
matching-length :
    (env : Env) (w : World) (params : ListParams)
    → length (matching env w params) ≤ length (select live w.api_keys)
matching-length env w params = omega (
  arith,
  length-order_desc (λ r. time_or_zero r.created_at)
      (select (listed env (search_pattern params)) w.api_keys),
  length-select_mono (listed env (search_pattern params)) live w.api_keys
      (listed-live env (search_pattern params)),
)

-- With a database that answers, no two matching keys made at the same time, and pages that end below
-- 2 ^ 31: if List returns a result for some page, then its TotalPage many pages of that size, asked
-- for one after the other from that state on, have together each key once whose row is not deleted
-- and matches the search, the newest first, whatever order the database gives the rows that ORDER BY
-- leaves open.
pub list-pages :
    (params : ListParams) (l p : ℕ) (env : Env) (w : World) (r : ListResult)
    → Answers env
    → DistinctTimes env w params
    → suc p * suc l < 2147483648
    → (list (page_request params l p) env w).0 ≡ ok r
    → r.total_page * suc l < 2147483648
    → keys_of_pages params l r.total_page env w ≡ map (api_key_from_db env) (matching env w params)
unfolding pages_of
list-pages params l p env w r answers distinct small h fits =
    let total =
      ap pages_of (sym h ∙ list_lem params l p env w small distinct (answers _) (answers _)) in
    keys_of_pages_lem params l r.total_page env w answers distinct fits
    ∙ ap (map (api_key_from_db env)) (
        pages-all (suc l) r.total_page _ (
          rw total (
            omega (
              arith,
              matching-length env w params,
              (total_pages-enough (length (select live w.api_keys)) (suc l) (omega arith)).0,
            ))))
