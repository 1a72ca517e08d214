-- ===== src/Pagination.antt =====
-- schemas/pagination.py: page requests and page results. Counts are natural numbers: a negative
-- page or size, which the tests refuse as they refuse zero, has no other place here.
pub mod Windows
pub mod Tests
use Prim.Native.String
use software_hub.Prelude.{
  ℕ, ◌+◌, ◌-◌, ◌*◌, ◌/◌, Bool, ◌&&◌, ◌||◌, List, String, ltb, nat_beq, if◌then◌else◌,
}
use software_hub.Normalization.{decimal}

pub record Pagination : Type 0 where
  pub page : ℕ
  pub per_page : ℕ
  pub max_per_page : ℕ

-- What a constructor gives: the object, or the message of its `ValueError`.
pub data Constructed {ℓ} (A : Type ℓ) : Type ℓ where
  made : A → Constructed A
  refused : String → Constructed A

unfoldable pub new_pagination : ℕ → ℕ → ℕ → Constructed Pagination
new_pagination page per_page max_per_page =
    if ltb page 1
    then refused "Page must be at least 1."
    else if ltb per_page 1
    then refused "Items per page must be at least 1."
    else if ltb max_per_page 1
    then refused "Maximum items per page must be at least 1."
    else if ltb max_per_page per_page
    then refused
        (String.◌++◌ "Items per page must not exceed " (String.◌++◌ (decimal 10 max_per_page) "."))
    else made (record { page = page; per_page = per_page; max_per_page = max_per_page })

unfoldable pub offset : Pagination → ℕ
offset p = (p.page - 1) * p.per_page

pub record Page {ℓ} (A : Type ℓ) : Type ℓ where
  pub items : List A
  pub total : ℕ
  pub page : ℕ
  pub per_page : ℕ

-- `ceil(self.total / self.per_page)`: the code divides floating-point numbers, and its quotient
-- rounds up to this number as long as the total is below 2^53.
unfoldable pub pages {ℓ} : {A : Type ℓ} → Page A → ℕ
pages p = if nat_beq p.total 0 then 0 else (p.total + (p.per_page - 1)) / p.per_page

unfoldable pub has_previous {ℓ} : {A : Type ℓ} → Page A → Bool
has_previous p = ltb 1 p.page && ltb 0 (pages p)

unfoldable pub has_next {ℓ} : {A : Type ℓ} → Page A → Bool
has_next p = ltb p.page (pages p)
