-- ===== src/Store.antt =====
-- The database behind internal/repository and internal/service, the sources of time and randomness,
-- and the monad of the operations that use them.
--
-- A row is the struct of internal/db/models.go, with `none` for a pgtype value that is not valid,
-- which SQL has as NULL. A UUID is its 128 bits as a number, a time.Time is its nanoseconds since
-- the zero time. The n-th use of the database, the clock or randomness is answered by the
-- environment as it likes: any statement may fail.
mod Effects
mod Rows
pub mod Sql
pub mod Keeps
pub mod Raises
pub mod Announces
pub mod Samples
pub mod Bind
pub mod Paging
pub mod Ordering
pub mod Laws
unfoldable pub use Effects.*
pub use Rows.*
use be_aether_node.Store.Sql.{order_desc}
use be_aether_node.Base.{List, ◌/◌, ◌*◌, ℕ, String, Option, none, some, if◌then◌else◌, str_eq}

-- A time as a TIMESTAMPTZ column keeps it: in whole microseconds. The database's own clock, which NOW()
-- reads, is taken to give such times.
unfoldable pub to_micros : ℕ → ℕ
to_micros t = t / 1000 * 1000

-- uuid.Parse
abbrev pub parse_uuid : String → Err → M ℕ
parse_uuid s e = or_raise (λ env. env.uuid_parse s) e

abbrev pub or_nil : Option ℕ → ℕ
or_nil none = 0
or_nil (some u) = u

-- `guid, _ := uuid.Parse(s)`, the nil UUID where it fails.
abbrev pub parse_uuid_or_nil : String → M ℕ
parse_uuid_or_nil s = ask (λ env. or_nil (env.uuid_parse s))

-- What a Go string, time or flag is where a pgtype value is not valid.
abbrev pub text_or_empty : Option String → String
text_or_empty none = ""
text_or_empty (some s) = s

abbrev pub time_or_zero : Option ℕ → ℕ
time_or_zero none = 0
time_or_zero (some t) = t

-- ORDER BY time DESC of rows with these GUIDs and times. Rows of one time come in an order of the
-- database's own, which is another one for each statement.
unfoldable pub newest_first :
    {A : Type 0} → Env → World → (A → Option ℕ) → (A → Option ℕ) → List A → List A
newest_first env w guid time rows =
    order_desc (λ r. time_or_zero (time r))
      (order_desc (λ r. env.row_rank w.steps (or_nil (guid r))) rows)

abbrev pub uuid_or_empty : Env → Option ℕ → String
uuid_or_empty env none = ""
uuid_or_empty env (some u) = env.uuid_string u

-- A pointer of an update request: the old value where it is nil.
abbrev pub override : {A : Type 0} → Option A → A → A
override none a = a
override (some b) _ = b

-- `if guid == "" { guid = uuid.New().String() }`
unfoldable pub fresh_if_empty : String → M String
fresh_if_empty guid = if str_eq guid "" then fresh_uuid else pure guid

-- The text of a pgtype.Text that is set where the string is not empty.
abbrev pub optional_text : String → Option String
optional_text s = if str_eq s "" then none else some s

-- db.XFromDB of a row that was read.
abbrev pub convert : {A B : Type 0} → (Env → A → B) → A → M B
convert f a = ask (λ env. f env a)

-- `if p != nil { id, _ := uuid.Parse(*p) }`
abbrev pub parse_optional_uuid : Option String → M (Option ℕ)
parse_optional_uuid none = pure none
parse_optional_uuid (some s) = ask (λ env. some (or_nil (env.uuid_parse s)))
