-- ===== src/Cards/Grab.antt =====
-- What the grabbing cards give.
use native.Mathlib.Nat.{mod-lt}
use prison_break.Shared.{
  ℕ, zero, suc, ◌%◌, ◌<◌, ◌≡◌, ◌≢◌, ◌↔◌, ◌⊎◌, refl, List, [], ◌∷◌, ◌++◌, arith, text_eq_iff,
  text_lt, length, get_or, map, keep, Any, sort_by-Any, fnv64a, le_bytes, Bool-cases, inl, inr,
  ◌==◌,
}
use prison_break.Model.{PlayerId, ItemType, ItemStack}
use prison_break.Cards.{is_candidate, grab_candidates, deterministic_grab_from_inventory}

get_or-Any :
    (items : List ItemType) (i : ℕ) → i < length items → Any (λ x. x ≡ get_or items i []) items
get_or-Any [] i h = absurd (omega arith)
get_or-Any (x ∷ items) zero h = inl refl
get_or-Any (x ∷ items) (suc i) h = inr (get_or-Any items i (omega arith))

-- A named item of which the inventory has some.
abbrev pub Stocked : ItemType → List ItemStack → Type 0
Stocked item inventory = Any (λ s. (s.item ≡ item) × (0 < s.quantity) × (s.item ≢ [])) inventory

candidates_iff :
    (item : ItemType) (inventory : List ItemStack)
    → Any (λ x. x ≡ item) (map (λ s. s.item) (keep is_candidate inventory)) ↔ Stocked item inventory
candidates_iff item [] = ground arith
candidates_iff item (s ∷ inventory) =
    ground (arith, candidates_iff item inventory, text_eq_iff s.item [])

grab_candidates_iff :
    (item : ItemType) (inventory : List ItemStack)
    → Any (λ x. x ≡ item) (grab_candidates inventory) ↔ Stocked item inventory
unfolding grab_candidates
grab_candidates_iff item inventory = ground (
  arith,
  candidates_iff item inventory,
  sort_by-Any (λ (x : ItemType). x ≡ item) text_lt
      (map (λ (s : ItemStack). s.item) (keep is_candidate inventory)),
)

none_stocked :
    (item : ItemType) (items : List ItemType) → length items ≡ 0 → ¬ Any (λ x. x ≡ item) items
none_stocked item [] e h = h
none_stocked item (x ∷ items) e h = absurd (omega arith)

-- What is grabbed from an inventory is a named item of which the inventory has some, unless it has no
-- such item; then nothing is grabbed.
pub deterministic_grab_from_inventory-Stocked :
    (actor target : PlayerId) (tick : ℕ) (inventory : List ItemStack)
    → let item = deterministic_grab_from_inventory actor target tick inventory in
      Stocked item inventory ⊎ ((item ≡ []) × ((k : ItemType) → ¬ Stocked k inventory))
unfolding deterministic_grab_from_inventory
deterministic_grab_from_inventory-Stocked actor target tick inventory =
    let items = grab_candidates inventory in
    let hash = fnv64a (actor ++ (target ++ le_bytes 8 tick)) in
    elim (Bool-cases (length items == 0)) [
      | inl e ↦ rw e (
          inr (
            refl,
            λ k h. none_stocked k items (ground arith) ((grab_candidates_iff k inventory).1 h),
          ))
      | inr e ↦ rw e (
          let lt = mod-lt hash (ground arith) in
          inl ((grab_candidates_iff _ inventory).0 (get_or-Any items (hash % length items) lt)))
    ]
