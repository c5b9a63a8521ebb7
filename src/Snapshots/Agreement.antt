-- ===== src/Snapshots/Agreement.antt =====
-- When a client that takes changes agrees with the server.
use prison_break.Shared.{
  ◌≡◌, ◌≢◌, ◌↔◌, ◌⊎◌, refl, sym, ap, ◌∙◌, Bool, true, false, not, List, [], ◌∷◌, arith, text_lt,
  text_eq_sound, text_lt_irrefl, text_lt_trans, text_lt_connected, keep, All, length, ltb, ◌==◌,
  Bool-cases, inl, inr, put_entry, put_all, In, Ascending, KeyOrder, Ascending-unique,
  Ascending-ext, put_all-Ascending, put_all-In, put_all-keeps, put_entry-here,
}
use prison_break.Snapshots.{upsert}

pub text_order : KeyOrder text_lt
text_order = record {
  irrefl = text_lt_irrefl;
  trans = text_lt_trans;
  connected = λ a b h k. text_eq_sound a b (text_lt_connected a b h k);
}

pub number_order : KeyOrder ltb
number_order = record {
  irrefl = λ a. ground arith;
  trans = λ a b c h k. ground arith;
  connected = λ a b h k. ground arith;
}

module _ {K A : Type 0} (lt : K → K → Bool) (o : KeyOrder lt) (key : A → K) where
  -- The changed entries and the removed keys take the entries from the old ones to the new ones: what is
  -- sent is new, what is new is sent or old, what is there no more is removed, and nothing else is.
  pub record Covers (old new changed : List A) (is_removed : K → Bool) : Type 0 where
    pub sent : (z : A) → In z changed → In z new
    pub needed : (z : A) → In z new → In z old ⊎ In z changed
    pub present : (z : A) → In z new → is_removed (key z) ≡ false
    pub gone :
        (z : A) → In z old → (is_removed (key z) ≡ true) ⊎ ((y : A) × In y new × (key y ≡ key z))

  -- Does an entry have the key of another?
  with_key :
      (xs : List A) (z : A)
      → ((y : A) × In y xs × (key y ≡ key z)) ⊎ ((y : A) → In y xs → key y ≢ key z)
  with_key [] z = inr (λ y i. absurd i)
  with_key (x ∷ xs) z = elim (with_key xs z) [
    | inl (y, i, e) ↦ inl (y, inr i, e)
    | inr none_there ↦ elim (Bool-cases (lt (key x) (key z))) [
      | inl below ↦ inr (λ y j. elim j [
        | inl e ↦ λ k. ground (arith, o.irrefl (key z), rw (ap key (sym e) ∙ k) at below)
        | inr i ↦ none_there y i
      ])
      | inr f ↦ elim (Bool-cases (lt (key z) (key x))) [
        | inl above ↦ inr (λ y j. elim j [
          | inl e ↦ λ k. ground (arith, o.irrefl (key z), rw (ap key (sym e) ∙ k) at above)
          | inr i ↦ none_there y i
        ])
        | inr g ↦ inl (x, inl refl, o.connected (key x) (key z) f g)
      ]
    ]
  ]

  -- What is written is there, if nothing else is written under its key.
  put_all-here :
      (xs m : List A) (z : A)
      → ((x : A) → In x xs → key x ≡ key z → x ≡ z)
      → In z xs
      → In z (put_all lt key xs m)
  unfolding put_all
  put_all-here [] m z only i = absurd i
  put_all-here (x ∷ xs) m z only i = elim (with_key xs z) [
    | inl (y, j, e) ↦
        let same : y ≡ z = only y (inr j) e in
        put_all-here xs (put_entry lt key x m) z (λ w k. only w (inr k)) (rw same at j)
    | inr others ↦
        put_all-keeps lt o key xs (put_entry lt key x m) z others
          (elim i [ inl e ↦ rw e (put_entry-here lt o key x m) | inr j ↦ absurd (others z j refl) ])
  ]

  pub upsert-Ascending :
      (old changed : List A) → Ascending lt key old → Ascending lt key (upsert lt key old changed)
  unfolding upsert
  upsert-Ascending old changed h = elim (Bool-cases (length changed == 0)) [
    | inl e ↦ rw e h
    | inr e ↦ rw e (
        put_all-Ascending lt o key changed (put_all lt key old [])
          (put_all-Ascending lt o key old [] tt))
  ]

  upsert-written :
      (old changed : List A) (c : A)
      → upsert lt key old (c ∷ changed) ≡ put_all lt key (c ∷ changed) (put_all lt key old [])
  unfolding upsert
  upsert-written old changed c =
      let some_there : (length (c ∷ changed) == 0) ≡ false = ground arith in rw some_there refl

  upsert-In :
      (old changed : List A) (z : A)
      → In z (upsert lt key old changed)
      → In z changed ⊎ (In z old × ((x : A) → In x changed → key x ≢ key z))
  unfolding upsert
  upsert-In old [] z i = inr (i, λ x j. absurd j)
  upsert-In old (c ∷ changed) z i =
      elim (put_all-In lt o key (c ∷ changed) (put_all lt key old []) z
        (put_all-Ascending lt o key old [] tt) (rw (upsert-written old changed c) at i)) [
          | inl e ↦ inl e
          | inr (j, others) ↦ elim (put_all-In lt o key old [] z tt j) [
            | inl k ↦ inr (k, others)
            | inr (k, _) ↦ absurd k
          ]
        ]

  upsert-changed :
      (old changed : List A) (z : A)
      → ((x : A) → In x changed → key x ≡ key z → x ≡ z)
      → In z changed
      → In z (upsert lt key old changed)
  unfolding upsert
  upsert-changed old [] z only i = absurd i
  upsert-changed old (c ∷ changed) z only i =
      rw (upsert-written old changed c)
        (put_all-here (c ∷ changed) (put_all lt key old []) z only i)

  upsert-kept :
      (old changed : List A) (z : A)
      → Ascending lt key old
      → ((x : A) → In x changed → key x ≢ key z)
      → In z old
      → In z (upsert lt key old changed)
  unfolding upsert
  upsert-kept old [] z h ne i = i
  upsert-kept old (c ∷ changed) z h ne i = rw (upsert-written old changed c) (
      put_all-keeps lt o key (c ∷ changed) (put_all lt key old []) z ne
        (put_all-here old [] z (λ x j e. Ascending-unique lt o key old x z h j i e) i))

  keep-In : (t : A → Bool) (xs : List A) (z : A) → (In z (keep t xs) ↔ (In z xs × (t z ≡ true)))
  keep-In t [] z = (λ i. absurd i, λ (i, e). absurd i)
  keep-In t (x ∷ xs) z =
      let rest = keep-In t xs z in
      elim (Bool-cases (t x)) [
        | inl e ↦ rw e (
          λ i. elim i [ inl f ↦ (inl f, ap t f ∙ e) | inr j ↦ (inr (rest.0 j).0, (rest.0 j).1) ],
          λ (i, k). elim i [ inl f ↦ inl f | inr j ↦ inr (rest.1 (j, k)) ],
        )
        | inr e ↦ rw e (
          λ i. (inr (rest.0 i).0, (rest.0 i).1),
          λ (i, k). elim i [
            | inl f ↦ absurd (ground (arith, ap t f, e, k))
            | inr j ↦ rest.1 (j, k)
          ],
        )
      ]

  keep-All : (t : A → Bool) (P : A → Type 0) (xs : List A) → All P xs → All P (keep t xs)
  keep-All t P [] h = tt
  keep-All t P (x ∷ xs) h = elim (Bool-cases (t x)) [
    | inl e ↦ rw e (h.0, keep-All t P xs h.1)
    | inr e ↦ rw e (keep-All t P xs h.1)
  ]

  keep-Ascending : (t : A → Bool) (xs : List A) → Ascending lt key xs → Ascending lt key (keep t xs)
  keep-Ascending t [] h = tt
  keep-Ascending t (x ∷ xs) h = elim (Bool-cases (t x)) [
    | inl e ↦ rw e (keep-All t _ xs h.0, keep-Ascending t xs h.1)
    | inr e ↦ rw e (keep-Ascending t xs h.1)
  ]

  -- The new entries are reached from the old ones.
  pub upsert-reaches :
      (old new changed : List A) (is_removed : K → Bool)
      → Ascending lt key old
      → Ascending lt key new
      → Covers old new changed is_removed
      → keep (λ a. not (is_removed (key a))) (upsert lt key old changed) ≡ new
  upsert-reaches old new changed is_removed h k c =
      let up = upsert lt key old changed in
      let t = λ (a : A). not (is_removed (key a)) in
      Ascending-ext lt o key (keep t up) new (keep-Ascending t up (upsert-Ascending old changed h))
        k
        (λ z i.
          let (there, stays) = (keep-In t up z).0 i in
          elim (upsert-In old changed z there) [
            | inl j ↦ c.sent z j
            | inr (j, others) ↦ elim (c.gone z j) [
              | inl r ↦ absurd (ground (arith, r, stays))
              | inr (y, in_new, e) ↦ elim (c.needed y in_new) [
                | inl in_old ↦
                    let same : y ≡ z = Ascending-unique lt o key old y z h in_old j e in
                    rw same at in_new
                | inr in_changed ↦ absurd (others y in_changed e)
              ]
            ]
          ])
        (λ z i.
          let stays : t z ≡ true = ap not (c.present z i) in
          let only = λ (x : A) (j : In x changed) (e : key x ≡ key z).
            Ascending-unique lt o key new x z k (c.sent x j) i e in
          (keep-In t up z).1 (
            elim (with_key changed z) [
              | inl (y, j, e) ↦
                  let same : y ≡ z = only y j e in upsert-changed old changed z only (rw same at j)
              | inr others ↦ elim (c.needed z i) [
                | inl in_old ↦ upsert-kept old changed z h others in_old
                | inr in_changed ↦ absurd (others z in_changed refl)
              ]
            ],
            stays,
          ))
