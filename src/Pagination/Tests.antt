-- ===== src/Pagination/Tests.antt =====
-- The windows of a listing of seven items, three to a page.
use software_hub.Prelude.{ℕ, ◌+◌, ◌<◌, ◌≡◌, refl, ◌↔◌, true, [], ◌∷◌}
use software_hub.Pagination.{
  Pagination, Page, made, refused, new_pagination, offset, pages, has_previous, has_next,
}
use software_hub.Normalization.{decimal, digit}
use software_hub.Pagination.Windows.{has_next_iff}

abbrev second_page : Pagination
second_page = record { page = 2; per_page = 3; max_per_page = 100 }

abbrev second_result : Page ℕ
second_result = record { items = 4 ∷ 5 ∷ 6 ∷ []; total = 7; page = 2; per_page = 3 }

seven_items_pages : pages second_result ≡ 3
unfolding pages
seven_items_pages = refl

too_many : new_pagination 1 101 100 ≡ refused "Items per page must not exceed 100."
unfolding new_pagination decimal digit
too_many = refl

second_page_made : new_pagination 2 3 100 ≡ made second_page
unfolding new_pagination
second_page_made = refl

has_next_iff_example :
    ((has_next second_result ≡ true) ↔ (offset second_page + 3 < 7))
    × ((has_previous second_result ≡ true) ↔ ((1 < 2) × (0 < 7)))
has_next_iff_example = has_next_iff 2 3 100 second_page (4 ∷ 5 ∷ 6 ∷ []) 7 second_page_made
