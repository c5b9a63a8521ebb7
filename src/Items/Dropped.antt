-- ===== src/Items/Dropped.antt =====
-- inventory.go: an item on the floor is an entity, whose tags say what it is and how many.
pub mod Roundtrip
use prison_break.Shared.{
  decimal, ℕ, zero, suc, ◌+◌, ◌-◌, ◌*◌, ◌/◌, ◌%◌, Bool, true, false, not, ◌&&◌, ◌||◌, List, [], ◌∷◌,
  ◌++◌, Option, none, some, Text, codes, text_eq, text_lt, ltb, leb, ◌==◌, if◌then◌else◌, sort_by,
}
use prison_break.Model.{ItemType, EntityState}
use prison_break.Model.Kinds.{is_dropped_item}
use prison_break.Items.Catalog.{is_known_item, is_contraband}

abbrev pub dropped_tag_item_prefix : Text
dropped_tag_item_prefix = codes "item:"

abbrev pub dropped_tag_qty_prefix : Text
dropped_tag_qty_prefix = codes "qty:"

abbrev pub dropped_tag_marker : Text
dropped_tag_marker = codes "dropped_item"

abbrev pub dropped_tag_contraband : Text
dropped_tag_contraband = codes "contraband"

-- `strconv.Itoa` of a number that is not negative; an `int` has at most 19 digits.
unfoldable pub itoa : ℕ → Text
unfolding decimal
itoa n = decimal 19 n

-- The digits of a number, after the part that is read already.
parse_digits : ℕ → Text → Option ℕ
parse_digits n [] = some n
parse_digits n (c ∷ s) =
    let rest = parse_digits (n * 10 + (c - 48)) s in if leb 48 c && leb c 57 then rest else none

parse_number : Text → Option ℕ
unfolding parse_digits
parse_number [] = none
parse_number (c ∷ s) = parse_digits 0 (c ∷ s)

-- The value of a text with a sign, where it is in the range 1 to 255.
in_range : Bool → Option ℕ → Option ℕ
in_range negative none = none
in_range negative (some n) = if negative || n == 0 || ltb 255 n then none else some n

signed_byte : Text → Option ℕ
unfolding in_range parse_number
signed_byte [] = none
signed_byte (c ∷ s) =
    if c == b'-'
    then in_range true (parse_number s)
    else if c == b'+'
    then in_range false (parse_number s)
    else in_range false (parse_number (c ∷ s))

-- `strconv.Atoi`, and the range check on its result: an error and a number out of range have the
-- same answer. (Atoi reads decimal digits after an optional sign.)
unfoldable pub atoi_byte : Text → Option ℕ
unfolding signed_byte
atoi_byte raw = signed_byte raw

-- `strings.HasPrefix` with `strings.TrimPrefix`.
unfoldable pub strip_prefix : Text → Text → Option Text
strip_prefix [] t = some t
strip_prefix (a ∷ p) [] = none
strip_prefix (a ∷ p) (b ∷ t) = if a == b then strip_prefix p t else none

unfoldable pub build_dropped_item_tags : ItemType → ℕ → List Text
unfolding itoa
build_dropped_item_tags item quantity =
    let q = if quantity == 0 then 1 else quantity in
    let tags =
      dropped_tag_marker
      ∷ (dropped_tag_item_prefix ++ item)
      ∷ (dropped_tag_qty_prefix ++ itoa q)
      ∷ [] in
    sort_by text_lt (if is_contraband item then tags ++ dropped_tag_contraband ∷ [] else tags)

-- One round of the loop of `ParseDroppedItem`: the item and the quantity after a tag, or a refusal.
read_qty : ItemType × ℕ → Option Text → Option (ItemType × ℕ)
unfolding atoi_byte
read_qty (item, quantity) none = some (item, quantity)
read_qty (item, quantity) (some raw) = elim (atoi_byte raw) [
  | none ↦ none
  | some parsed ↦ some (item, parsed)
]

read_item : ItemType × ℕ → Text → Option Text → Option (ItemType × ℕ)
unfolding read_qty strip_prefix
read_item seen tag none = read_qty seen (strip_prefix dropped_tag_qty_prefix tag)
read_item (item, quantity) tag (some candidate) =
    if not (is_known_item candidate) then none else some (candidate, quantity)

unfoldable pub read_tag : ItemType × ℕ → Text → Option (ItemType × ℕ)
unfolding read_item strip_prefix
read_tag seen tag = read_item seen tag (strip_prefix dropped_tag_item_prefix tag)

unfoldable pub read_tags : Option (ItemType × ℕ) → List Text → Option (ItemType × ℕ)
read_tags none tags = none
read_tags (some seen) [] = some seen
read_tags (some seen) (tag ∷ tags) = read_tags (read_tag seen tag) tags

unfoldable pub named : Option (ItemType × ℕ) → Option (ItemType × ℕ)
named none = none
named (some (item, quantity)) = if text_eq item [] then none else some (item, quantity)

unfoldable pub parse_dropped_item : EntityState → Option (ItemType × ℕ)
unfolding named
parse_dropped_item entity =
    if not (is_dropped_item entity.kind) then none else named (read_tags (some ([], 1)) entity.tags)
