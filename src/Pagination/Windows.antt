-- ===== src/Pagination/Windows.antt =====
-- schemas/pagination.py: what the windows of a listing cover, and when another one follows.
use native.Mathlib.Nat.{le-div_iff_mul-le}
use software_hub.Prelude.{
  ℕ, zero, suc, if◌then◌else◌, ◌+◌, ◌-◌, ◌*◌, ◌/◌, ◌≤◌, ◌<◌, ◌≡◌, ◌↔◌, true, List, arith, ltb,
  nat_beq,
}
use software_hub.Pagination.{
  Pagination, made, new_pagination, offset, pages, has_previous, has_next,
}

made-bounds :
    (page per_page max_per_page : ℕ) (g : Pagination)
    → new_pagination page per_page max_per_page ≡ made g
    → (1 ≤ g.page) × (1 ≤ g.per_page) × (g.per_page ≤ g.max_per_page)
unfolding new_pagination
made-bounds page per_page max_per_page g h = ground arith

next_multiple : (q k : ℕ) → (q + 1) * k ≡ q * k + k
next_multiple q k = omega arith

window_lem : (q k i : ℕ) → 1 ≤ k → ((q * k ≤ i) × (i < q * k + k)) ↔ (q ≡ i / k)
window_lem q k i pos =
    let low = le-div_iff_mul-le {k = k} {x = q} {y = i} pos in
    let high = le-div_iff_mul-le {k = k} {x = q + 1} {y = i} pos in
    let next = next_multiple q k in (λ h. ground arith, λ h. (ground arith, ground arith))

pages_lem :
    (page k total : ℕ) → 1 ≤ k → 1 ≤ total → (page < (total + (k - 1)) / k) ↔ (page * k < total)
pages_lem page k total pos some_items =
    let high = le-div_iff_mul-le {k = k} {x = page + 1} {y = total + (k - 1)} pos in
    let next = next_multiple page k in (λ h. ground arith, λ h. ground arith)

previous_multiple : (page k : ℕ) → 1 ≤ page → (page - 1) * k + k ≡ page * k
previous_multiple zero k h = absurd (omega arith)
previous_multiple (suc q) k h = grind (arith, next_multiple q k)

next_lem :
    (page k total : ℕ)
    → 1 ≤ k
    → (ltb page (if nat_beq total 0 then 0 else (total + (k - 1)) / k) ≡ true) ↔ (page * k < total)
next_lem page k zero pos = (λ h. ground arith, λ h. absurd (omega (arith, h)))
next_lem page k (suc n) pos =
    let more = pages_lem page k (suc n) pos (omega arith) in
    (λ h. more.0 (ground arith), λ h. ground (arith, more.1 h))

-- The windows of the accepted requests with one page size part the listing: an index lies in the
-- window of a request exactly where the request asks for the page of that index.
pub offset_iff :
    (page per_page max_per_page : ℕ) (g : Pagination) (i : ℕ)
    → new_pagination page per_page max_per_page ≡ made g
    → ((offset g ≤ i) × (i < offset g + g.per_page)) ↔ (g.page ≡ i / g.per_page + 1)
unfolding offset
offset_iff page per_page max_per_page g i h =
    let bounds = made-bounds page per_page max_per_page g h in
    let window = window_lem (g.page - 1) g.per_page i bounds.1 in
    (λ inside. ground arith, λ same. window.1 (ground arith))

-- A listing of an accepted request has a next page exactly where an item lies behind its window,
-- and a previous one exactly where it is not the first page and the listing is not empty.
pub has_next_iff {ℓ} :
    {A : Type ℓ} (page per_page max_per_page : ℕ) (g : Pagination) (items : List A) (total : ℕ)
    → new_pagination page per_page max_per_page ≡ made g
    → ((has_next (record { items = items; total = total; page = g.page; per_page = g.per_page })
          ≡ true)
        ↔ (offset g + g.per_page < total))
      × ((has_previous
              (record { items = items; total = total; page = g.page; per_page = g.per_page })
            ≡ true)
          ↔ ((1 < g.page) × (0 < total)))
unfolding has_next has_previous pages offset
has_next_iff page per_page max_per_page g items total h =
    let bounds = made-bounds page per_page max_per_page g h in
    let next = next_lem g.page g.per_page total bounds.1 in
    let first = next_lem 0 g.per_page total bounds.1 in
    let step = previous_multiple g.page g.per_page bounds.0 in
    (
      (λ t. omega (arith, next.0 t, step), λ t. next.1 (omega (arith, t, step))),
      (λ t. ground arith, λ t. ground (arith, first.1 (omega (arith, t)))),
    )
