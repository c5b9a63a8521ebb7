-- ===== src/Actions/Ammo/Bullets.antt =====
-- The bullets that an authority can shoot are those in the inventory.
use prison_break.Shared.{
  ℕ, subst, text_eq_sound, ◌<◌, ◌≡◌, ◌≢◌, ◌⊎◌, refl, sym, ap, ◌∙◌, Bool, true, false, List, [], ◌∷◌,
  arith, text_eq, text_eq_refl, ltb, length, ◌≤◌, ◌+◌, ◌==◌, if◌then◌else◌, Bool-cases, inl, inr,
}
use prison_break.Model.{PlayerState, ItemType, ItemStack}
use prison_break.GameMap.{is_authority_player}
use prison_break.Items.Catalog.{item_bullet, item_satchel, is_known_item}
use prison_break.Items.Inventory.{
  add_item, remove_item, stack_limit_for_player, base_stack_limit_for_player, stack_limit_for_base,
  base_inventory_stack_limit,
}
use prison_break.Items.Inventory.Found.{share}
use prison_break.Items.Inventory.Normal.{IsNormal, Distinct-of_IsAscending}
use prison_break.Items.Inventory.Totals.{total, total_of_head, Distinct}
use prison_break.Items.Inventory.Operations.{holds, add_item-Added, remove_item-Removed}
use prison_break.Items.Inventory.Transfer.{holds_of_normal}
use prison_break.Items.Inventory.Complete.{remove_item_iff, add_item_iff}
use prison_break.Actions.Ammo.{
  inventory_item_quantity, drop_bullets, stock_bullets, sync_authority_bullet_stack,
}

quantity_of_normal :
    (m : List ItemStack) (item : ItemType)
    → Distinct m
    → inventory_item_quantity m item ≡ total item m
unfolding inventory_item_quantity
quantity_of_normal [] item h = refl
quantity_of_normal (s ∷ m) item h =
    ground (arith, quantity_of_normal m item h.1, total_of_head item s m h.0)

bullet_known : is_known_item item_bullet ≡ true
unfolding is_known_item text_eq
bullet_known = refl

not_satchel : item_bullet ≢ item_satchel
not_satchel e = cc

-- How the bullets of a player are without the stack.
abbrev Emptied : PlayerState → PlayerState → Type 0
Emptied p q =
    (holds q item_bullet ≡ 0)
    × ((k : ItemType) → text_eq item_bullet k ≡ false → holds q k ≡ holds p k)
    × (q ≡ record p { inventory = q.inventory })

drop_bullets_lem :
    (p : PlayerState) (changed : Bool) → IsNormal p.inventory → Emptied p (drop_bullets p changed).0
unfolding drop_bullets
drop_bullets_lem p changed normal =
    let current = inventory_item_quantity p.inventory item_bullet in
    let all_of_it : current ≡ holds p item_bullet =
      quantity_of_normal p.inventory item_bullet
        (Distinct-of_IsAscending p.inventory normal.ascending)
      ∙ sym (holds_of_normal p item_bullet normal) in
    elim (Bool-cases (ltb 0 current)) [
      | inr e ↦ rw e (ground (arith, e, all_of_it), λ k other. refl, refl)
      | inl e ↦
          let removes =
            (remove_item_iff p item_bullet current not_satchel).1
              (bullet_known, ground (arith, e), omega (arith, all_of_it)) in
          elim (remove_item-Removed p item_bullet current) [
            | inr (refused, _) ↦ absurd (ground (arith, removes, refused))
            | inl (_, (removed, _), same) ↦
                let left = (remove_item p item_bullet current).0 in
                rw e (
                  ground (
                    arith,
                    holds_of_normal left item_bullet removed.normal,
                    removed.totals item_bullet,
                    text_eq_refl item_bullet,
                    all_of_it,
                  ),
                  λ k other.
                      ground
                        (arith, holds_of_normal left k removed.normal, removed.totals k, other),
                  same,
                )
          ]
    ]

-- There is an inventory with just the bullets and all else that the player holds, within the limit of
-- stacks.
abbrev HasRoom : PlayerState → ℕ → Type 0
HasRoom p bullets =
    (next : List ItemStack) × IsNormal next
    × (total item_bullet next ≡ bullets)
    × ((k : ItemType) → text_eq item_bullet k ≡ false → total k next ≡ holds p k)
    × (length next ≤ stack_limit_for_player p next)

-- The stack of bullets is as many as can be shot, or there is no room for it, and no stack; nothing else is
-- touched.
abbrev pub Loaded : PlayerState → ℕ → PlayerState → Type 0
Loaded p bullets q =
    (q.bullets ≡ bullets)
    × ((holds q item_bullet ≡ bullets) ⊎ ((holds q item_bullet ≡ 0) × ¬ HasRoom p bullets))
    × ((k : ItemType) → text_eq item_bullet k ≡ false → holds q k ≡ holds p k)

totals_lem :
    (p : PlayerState) (next : List ItemStack)
    → total item_bullet next ≡ p.bullets
    → ((k : ItemType) → text_eq item_bullet k ≡ false → total k next ≡ holds p k)
    → holds p item_bullet ≡ 0
    → (k : ItemType) → total k next ≡ holds p k + share item_bullet p.bullets k
totals_lem p next stacked others empty k = elim (Bool-cases (text_eq item_bullet k)) [
  | inl e ↦
      let this : item_bullet ≡ k = text_eq_sound item_bullet k e in
      rw (sym this) (ground (arith, stacked, empty, text_eq_refl item_bullet))
  | inr e ↦ ground (arith, others k e, e)
]

room_lem :
    (p : PlayerState) (next : List ItemStack)
    → length next ≤ stack_limit_for_player p next
    → let base = base_stack_limit_for_player p in
      length next
      ≤ stack_limit_for_base next (if base == 0 then base_inventory_stack_limit else base)
unfolding stack_limit_for_player base_stack_limit_for_player
room_lem p next h = elim (Bool-cases (ltb 0 p.inventory_slots)) [
  | inl e ↦ rw e (ground (arith, e, h))
  | inr e ↦ rw e (ground (arith, e, h))
]

-- `AddItem` refuses the bullets only if there is no room for them.
refused_lem :
    (p : PlayerState)
    → 0 < p.bullets
    → p.bullets < 256
    → holds p item_bullet ≡ 0
    → (add_item p item_bullet p.bullets).1 ≡ false
    → ¬ HasRoom p p.bullets
refused_lem p pos small empty refused (next, normal, stacked, others, room) =
    let fits = (add_item_iff p item_bullet p.bullets small).1 (
      next,
      record {
        known = bullet_known;
        positive = pos;
        normal = normal;
        totals = λ k. totals_lem p next stacked others empty k;
        fits = omega (arith, small, empty);
        room = room_lem p next room;
      },
    ) in
    cc

stock_bullets_lem :
    (p : PlayerState) (changed : Bool)
    → p.bullets < 256
    → holds p item_bullet ≡ 0
    → Loaded p p.bullets (stock_bullets (p, changed)).0
unfolding stock_bullets
stock_bullets_lem p changed small empty = elim (Bool-cases (ltb 0 p.bullets)) [
  | inr e ↦ rw e (refl, inl (ground (arith, e, empty)), λ k other. refl)
  | inl e ↦ elim (add_item-Added p item_bullet p.bullets small) [
    | inr (refused, same) ↦
        rw (e, same)
          (
            refl,
            inr (empty, refused_lem p (ground (arith, e)) small empty refused),
            λ k other. refl,
          )
    | inl (_, added, same) ↦
        let after = (add_item p item_bullet p.bullets).0 in
        rw e (
          ap (λ (x : PlayerState). x.bullets) same,
          inl (
              ground (
                arith,
                holds_of_normal after item_bullet added.normal,
                added.totals item_bullet,
                text_eq_refl item_bullet,
                empty,
              )),
          λ k other. ground (arith, holds_of_normal after k added.normal, added.totals k, other),
        )
  ]
]

same_limit :
    (p : PlayerState) (m next : List ItemStack)
    → stack_limit_for_player (record p { inventory = m }) next ≡ stack_limit_for_player p next
unfolding stack_limit_for_player base_stack_limit_for_player
same_limit p m next = refl

kept_room : (p q : PlayerState) → Emptied p q → HasRoom p p.bullets → HasRoom q q.bullets
kept_room p q (empty, others_kept, same) (next, normal, stacked, others, room) =
    let limit : stack_limit_for_player q next ≡ stack_limit_for_player p next =
      ap (λ x. stack_limit_for_player x next) same ∙ same_limit p q.inventory next in
    (
      next,
      normal,
      stacked ∙ sym (ap (λ (x : PlayerState). x.bullets) same),
      λ k other. others k other ∙ sym (others_kept k other),
      subst (λ n. length next ≤ n) (sym limit) room,
    )

-- The sync leaves an authority with a normal inventory at most three bullets to shoot, and the inventory
-- with just as many, or with none if no inventory with them and all else fits in the player's limit of
-- stacks; it touches no other item.
pub sync_authority_bullet_stack-Loaded :
    (player : PlayerState)
    → is_authority_player player ≡ true
    → IsNormal player.inventory
    → Loaded player
        (if ltb 3 player.bullets then 3 else player.bullets)
        (sync_authority_bullet_stack player).0
unfolding sync_authority_bullet_stack stack_limit_for_player
sync_authority_bullet_stack-Loaded player authority normal =
    elim (Bool-cases (ltb 3 player.bullets)) [
      | inl over ↦
          rw (authority, over) (synced (record player { bullets = 3 }) true normal (omega arith))
      | inr fits ↦ rw (authority, fits) (synced player false normal (ground (arith, fits)))
    ]
  where
    synced :
        (p : PlayerState) (changed : Bool)
        → IsNormal p.inventory
        → p.bullets < 256
        → Loaded p p.bullets (stock_bullets (drop_bullets p changed)).0
    synced p changed n small =
        let (empty, others, same) = drop_bullets_lem p changed n in
        let (bullets, stacked, rest) =
          stock_bullets_lem (drop_bullets p changed).0 (drop_bullets p changed).1
            (subst (λ (x : PlayerState). x.bullets < 256) (sym same) small) empty in
        (
          bullets ∙ ap (λ (x : PlayerState). x.bullets) same,
          elim stacked [
            | inl e ↦ inl (e ∙ ap (λ (x : PlayerState). x.bullets) same)
            | inr (none_left, no_room) ↦ inr (
              none_left,
              λ room.
                  no_room
                    (kept_room p (drop_bullets p changed).0 (drop_bullets_lem p changed n) room),
            )
          ],
          λ k other. rest k other ∙ others k other,
        )
