-- ===== src/Http.antt =====
-- pkg/response: the bodies that the handlers answer with. A handler answers; it does not fail.
use be_aether_node.Base.{ℕ, String, Bool, false}
use be_aether_node.Store.{Err, Env, World, M, ok, err}
pub mod Answers

pub record Pagination : Type 0 where
  pub page : ℕ
  pub limit : ℕ
  pub total : ℕ
  pub total_pages : ℕ
  pub has_more : Bool

-- A text of the handler's own, or `err.Error()`.
pub data Message : Type 0 where
  text : String → Message
  error_text : Err → Message

-- Success, SuccessWithPagination and Error, with the status code first.
pub data Reply (A : Type 0) : Type 0 where
  success : ℕ → A → String → Reply A
  paginated : ℕ → A → Pagination → Reply A
  error : ℕ → String → Message → Reply A

abbrev pub status : {A : Type 0} → Reply A → ℕ
status (success code _ _) = code
status (paginated code _ _) = code
status (error code _ _) = code

-- The answer to what a call of the service returns.
abbrev pub answer :
    {A B : Type 0} → M A → (A → Reply B) → (Err → Reply B) → Env → World → Reply B × World
answer m on_ok on_err env w =
    let (r, w') = m env w in (elim r [ ok a ↦ on_ok a | err e ↦ on_err e ], w')

abbrev pub internal_error : {A : Type 0} → Err → Reply A
internal_error e = error 500 "INTERNAL_ERROR" (error_text e)

abbrev pub bad_request : {A : Type 0} → Reply A
bad_request = error 400 "VALIDATION_ERROR" (text "Invalid request body")

-- SuccessWithPagination of a list result; HasMore is left out.
abbrev pub page_reply : {A : Type 0} → A → ℕ → ℕ → ℕ → ℕ → Reply A
page_reply items page limit total total_pages = paginated 200 items (record {
  page = page;
  limit = limit;
  total = total;
  total_pages = total_pages;
  has_more = false;
})
