-- ===== src/Normalization/Tests.antt =====
-- Slugs of a few names.
use software_hub.Prelude.{true, false, [], ◌∷◌, ◌≡◌, ◌≤◌, refl, codes, length, none}
use software_hub.Unicode.{ascii, strip, strip_by, drop_while, drop_while_end, replace_char}
use software_hub.Normalization.{valid}
use software_hub.Normalization.Slugs.{
  transliterate, hyphenate, squeeze, is_slug, generate_slug, checked_slug, normalize_slug,
}
use software_hub.Normalization.Joined.{generate_slug-is_slug}

cut_name : generate_slug ascii (codes "  My  Tool++ 2") 8 ≡ valid (codes "my-tool")
unfolding generate_slug transliterate hyphenate squeeze strip strip_by drop_while drop_while_end
cut_name = refl

ukrainian : generate_slug ascii (1097 ∷ 1102 ∷ []) 20 ≡ valid (codes "shchiu")
unfolding generate_slug transliterate hyphenate squeeze strip strip_by drop_while drop_while_end
ukrainian = refl

by_hand : normalize_slug ascii (codes " My__Tool ") 20 none ≡ valid (codes "my-tool")
unfolding normalize_slug checked_slug squeeze is_slug replace_char strip strip_by drop_while
    drop_while_end
by_hand = refl

generate_slug-is_slug_example :
    (is_slug false (codes "my-tool") ≡ true) × (length (codes "my-tool") ≤ 8)
generate_slug-is_slug_example =
    generate_slug-is_slug ascii (codes "  My  Tool++ 2") 8 (codes "my-tool") cut_name
