-- ===== src/Items/Dropped/Roundtrip.antt =====
-- What is dropped can be picked up again.
use prison_break.Shared.{
  ℕ, zero, suc, ◌≤◌, ◌<◌, ◌≡◌, ◌⊎◌, refl, ap, ◌∙◌, Bool, true, false, ◌&&◌, List, [], ◌∷◌, ◌++◌,
  Option, none, some, Text, arith, text_eq, text_lt, text_eq_iff, ◌==◌, sort_by, Bool-cases, inl,
  inr,
}
use prison_break.Model.{ItemType, EntityState, dropped_item}
use prison_break.Items.Catalog.{is_known_item, is_contraband}
use prison_break.Items.Dropped.{
  dropped_tag_marker, dropped_tag_contraband, itoa, atoi_byte, dropped_tag_item_prefix,
  dropped_tag_qty_prefix, build_dropped_item_tags, read_tag, read_tags, parse_dropped_item, named,
}

is_value : ℕ → Option ℕ → Bool
is_value n none = false
is_value n (some m) = m == n

reads_back_to : ℕ → Bool
reads_back_to zero = true
reads_back_to (suc top) = reads_back_to top && is_value (suc top) (atoi_byte (itoa (suc top)))

bytes_read_back : reads_back_to 255 ≡ true
unfolding reads_back_to is_value atoi_byte itoa
bytes_read_back = refl

is_value_sound : (n : ℕ) (o : Option ℕ) → is_value n o ≡ true → o ≡ some n
unfolding is_value
is_value_sound n none h = cc
is_value_sound n (some m) h = ground arith

reads_back_to_sound :
    (top : ℕ)
    → reads_back_to top ≡ true
    → (q : ℕ) → 0 < q
    → q ≤ top
    → is_value q (atoi_byte (itoa q)) ≡ true
unfolding reads_back_to
reads_back_to_sound zero e q pos le = absurd (omega arith)
reads_back_to_sound (suc top) e q pos le =
    let below : reads_back_to top ≡ true = ground arith in
    elim (Bool-cases (q == suc top)) [
      | inl same ↦ ground (arith, same)
      | inr other ↦ reads_back_to_sound top below q pos (ground (arith, other))
    ]

atoi_byte-itoa : (q : ℕ) → 0 < q → q < 256 → atoi_byte (itoa q) ≡ some q
atoi_byte-itoa q pos small =
    is_value_sound q (atoi_byte (itoa q))
      (reads_back_to_sound 255 bytes_read_back q pos (omega arith))

empty_unknown : is_known_item [] ≡ false
unfolding is_known_item text_eq
empty_unknown = refl

known-ne_empty : (item : ItemType) → is_known_item item ≡ true → text_eq item [] ≡ false
known-ne_empty item known = elim (Bool-cases (text_eq item [])) [
  | inl e ↦ ground (arith, ap is_known_item ((text_eq_iff item []).0 e), empty_unknown)
  | inr e ↦ e
]

module _ (item : ItemType) (quantity : ℕ) (known : is_known_item item ≡ true) where
  read_item_tag :
      (seen : ItemType × ℕ) → read_tag seen (dropped_tag_item_prefix ++ item) ≡ some (item, seen.1)
  unfolding read_tag
  read_item_tag seen = rw known

  read_qty_tag :
      0 < quantity
      → quantity < 256
      → read_tag (item, 1) (dropped_tag_qty_prefix ++ itoa quantity) ≡ some (item, quantity)
  unfolding read_tag
  read_qty_tag pos small = ground (arith, atoi_byte-itoa quantity pos small)

  built_tags :
      0 < quantity
      → (build_dropped_item_tags item quantity
          ≡ dropped_tag_marker
            ∷ (dropped_tag_item_prefix ++ item)
            ∷ (dropped_tag_qty_prefix ++ itoa quantity)
            ∷ [])
        ⊎ (build_dropped_item_tags item quantity
            ≡ dropped_tag_contraband
              ∷ dropped_tag_marker
              ∷ (dropped_tag_item_prefix ++ item)
              ∷ (dropped_tag_qty_prefix ++ itoa quantity)
              ∷ [])
  unfolding build_dropped_item_tags sort_by text_lt
  built_tags pos =
      let q : (quantity == 0) ≡ false = ground arith in
      elim (Bool-cases (is_contraband item)) [ inl e ↦ inr (rw (e, q)) | inr e ↦ inl (rw (e, q)) ]

  plain_tags :
      (seen : ItemType × ℕ)
      → (read_tag seen dropped_tag_marker ≡ some seen)
        × (read_tag seen dropped_tag_contraband ≡ some seen)
  unfolding read_tag
  plain_tags seen = (refl, refl)

read_tags-cons :
    {r : Option (ItemType × ℕ)} (seen next : ItemType × ℕ) (tag : Text) (tags : List Text)
    → read_tag seen tag ≡ some next
    → read_tags (some next) tags ≡ r
    → read_tags (some seen) (tag ∷ tags) ≡ r
unfolding read_tags
read_tags-cons seen next tag tags e k = ap (λ o. read_tags o tags) e ∙ k

read_tags-nil : (seen : ItemType × ℕ) → read_tags (some seen) [] ≡ some seen
unfolding read_tags
read_tags-nil seen = refl

-- Tags that the program builds for a known item and 1 to 255 pieces of it are read back as that item
-- and that number, whatever else the entity is.
pub parse-build_dropped_item_tags :
    (entity : EntityState) (item : ItemType) (quantity : ℕ)
    → is_known_item item ≡ true
    → 0 < quantity
    → quantity < 256
    → parse_dropped_item
        (record entity { kind = dropped_item; tags = build_dropped_item_tags item quantity })
      ≡ some (item, quantity)
unfolding parse_dropped_item
parse-build_dropped_item_tags entity item quantity known pos small =
    let marks = plain_tags item quantity known ([], 1) in
    let reads = read_qty_tag item quantity known pos small in
    let name = read_item_tag item quantity known ([], 1) in
    let ne = known-ne_empty item known in
    let tail =
      read_tags-cons ([], 1) ([], 1) dropped_tag_marker _ marks.0
        (read_tags-cons ([], 1) (item, 1) _ _ name
          (read_tags-cons (item, 1) (item, quantity) _ _ reads (read_tags-nil (item, quantity)))) in
    elim (built_tags item quantity known pos) [
      | inl e ↦ rw (e, tail, named) (rw ne)
      | inr e ↦
          rw (e, read_tags-cons ([], 1) ([], 1) dropped_tag_contraband _ marks.1 tail, named)
            (rw ne)
    ]
