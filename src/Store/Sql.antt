-- ===== src/Store/Sql.antt =====
-- What the statements of queries/ and internal/db do with a list of rows: WHERE, UPDATE, DELETE,
-- ORDER BY created_at DESC, LIMIT and OFFSET.
use be_aether_node.Base.{
  String, ℕ, zero, suc, ◌+◌, ◌-◌, ◌*◌, ◌/◌, ◌%◌, Bool, true, false, Option, none, some, List, [],
  ◌∷◌, ◌++◌, ltb, leb, ◌==◌, if◌then◌else◌,
}
use be_aether_node.Base.Int.{ℤ, pos, negsuc}

-- `a = $1`, which is not true of NULL.
abbrev pub sql_eq : Option ℕ → ℕ → Bool
sql_eq none b = false
sql_eq (some a) b = a == b

-- The primary keys of two rows agree.
abbrev pub same_guid : Option ℕ → Option ℕ → Bool
same_guid a none = false
same_guid a (some b) = sql_eq a b

abbrev pub is_null : {A : Type 0} → Option A → Bool
is_null none = true
is_null (some _) = false

-- `CAST($1 AS uuid) IS NULL OR column = $1`
abbrev pub matches_uuid : Option ℕ → Option ℕ → Bool
matches_uuid column none = true
matches_uuid column (some id) = sql_eq column id

-- `a ILIKE $1`, which is not true of NULL.
abbrev pub ilike_null : (String → String → Bool) → Option String → String → Bool
ilike_null ilike none pattern = false
ilike_null ilike (some s) pattern = ilike s pattern

module _ {A : Type 0} where
  unfoldable pub select : (A → Bool) → List A → List A
  select p [] = []
  select p (x ∷ xs) = if p x then x ∷ select p xs else select p xs

  unfoldable pub update : (A → Bool) → (A → A) → List A → List A
  update p f [] = []
  update p f (x ∷ xs) = (if p x then f x else x) ∷ update p f xs

  unfoldable pub delete : (A → Bool) → List A → List A
  delete p [] = []
  delete p (x ∷ xs) = if p x then delete p xs else x ∷ delete p xs

  unfoldable pub exists : (A → Bool) → List A → Bool
  exists p [] = false
  exists p (x ∷ xs) = if p x then true else exists p xs

  abbrev pub append_row : A → List A → List A
  append_row x xs = xs ++ (x ∷ [])

  unfoldable pub take : ℕ → List A → List A
  take zero xs = []
  take (suc n) [] = []
  take (suc n) (x ∷ xs) = x ∷ take n xs

  unfoldable pub drop : ℕ → List A → List A
  drop zero xs = xs
  drop (suc n) [] = []
  drop (suc n) (x ∷ xs) = drop n xs

  -- ORDER BY key DESC. Rows of one key keep their order.
  unfoldable pub insert_desc : (A → ℕ) → A → List A → List A
  insert_desc key x [] = x ∷ []
  insert_desc key x (y ∷ ys) = if leb (key y) (key x) then x ∷ y ∷ ys else y ∷ insert_desc key x ys

  unfoldable pub order_desc : (A → ℕ) → List A → List A
  order_desc key [] = []
  order_desc key (x ∷ xs) = insert_desc key x (order_desc key xs)

  -- ORDER BY key ASC, by a comparison of the database.
  unfoldable pub insert_asc : (A → A → Bool) → A → List A → List A
  insert_asc le x [] = x ∷ []
  insert_asc le x (y ∷ ys) = if le x y then x ∷ y ∷ ys else y ∷ insert_asc le x ys

  unfoldable pub order_asc : (A → A → Bool) → List A → List A
  order_asc le [] = []
  order_asc le (x ∷ xs) = insert_asc le x (order_asc le xs)

  -- LIMIT limit OFFSET offset
  unfoldable pub page : ℕ → ℕ → List A → List A
  page limit offset xs = take limit (drop offset xs)

-- The rows of the pages 1 to n.
unfoldable pub pages : {A : Type 0} → ℕ → ℕ → List A → List A
pages limit zero xs = []
pages limit (suc n) xs = pages limit n xs ++ page limit (n * limit) xs

-- ListParams of the domain packages; no query reads the order and the sort column.
pub record ListParams : Type 0 where
  pub limit : ℤ
  pub page : ℤ
  pub order : String
  pub sort : String
  pub search : String

-- `if v <= 0 { v = d }`
unfoldable pub positive_or : ℕ → ℤ → ℕ
positive_or d (pos zero) = d
positive_or d (pos (suc n)) = suc n
positive_or d (negsuc n) = d

-- `int32(n)` of a product of ints. The wrap of the product to 64 bits does not change it.
unfoldable pub to_int32 : ℕ → ℤ
to_int32 n = let m = n % 4294967296 in if ltb m 2147483648 then pos m else negsuc (4294967295 - m)

-- total / limit, rounded up.
unfoldable pub total_pages : ℕ → ℕ → ℕ
total_pages total limit = total / limit + (if ltb 0 (total % limit) then 1 else 0)
