-- ===== src/Shared/Keyed.antt =====
-- Lists of entries with keys, in the order of the keys: `map[K]V` in Go, read back in the order of the
-- keys.
use mathlib.Core.Path.{◌≡◌, refl, sym, ap, ap₂, ◌∙◌}
use mathlib.Core.Logic.{◌≢◌, ◌⊎◌, inl, inr}
use mathlib.Core.Bool.{Bool, true, false}
use mathlib.Core.List.{List, [], ◌∷◌}
use native.Mathlib.Omega.{arith}
use prison_break.Shared.Tests.{if◌then◌else◌, Bool-cases}
use prison_break.Shared.Lists.{All, Any}

-- Is a value an entry?
abbrev pub In : {A : Type 0} → A → List A → Type 0
In z xs = Any (λ y. z ≡ y) xs

module _ {K : Type 0} {A : Type 0} where
  -- A write to a map; what has the key already is replaced.
  unfoldable pub put_entry : (K → K → Bool) → (A → K) → A → List A → List A
  put_entry lt key x [] = x ∷ []
  put_entry lt key x (y ∷ ys) =
      let rest = put_entry lt key x ys in
      if lt (key x) (key y) then x ∷ y ∷ ys else if lt (key y) (key x) then y ∷ rest else x ∷ ys

  unfoldable pub put_all : (K → K → Bool) → (A → K) → List A → List A → List A
  put_all lt key [] m = m
  put_all lt key (x ∷ xs) m = put_all lt key xs (put_entry lt key x m)

  abbrev pub Ascending : (K → K → Bool) → (A → K) → List A → Type 0
  Ascending lt key [] = Unit
  Ascending lt key (x ∷ xs) = All (λ y. lt (key x) (key y) ≡ true) xs × Ascending lt key xs

-- A strict linear order of the keys.
pub record KeyOrder {K : Type 0} (lt : K → K → Bool) : Type 0 where
  pub irrefl : (a : K) → lt a a ≡ false
  pub trans : (a b c : K) → lt a b ≡ true → lt b c ≡ true → lt a c ≡ true
  pub connected : (a b : K) → lt a b ≡ false → lt b a ≡ false → a ≡ b

module _ {K A : Type 0} (lt : K → K → Bool) (o : KeyOrder lt) (key : A → K) where
  All-In : (P : A → Type 0) (xs : List A) (z : A) → All P xs → In z xs → P z
  All-In P [] z h e = absurd e
  All-In P (x ∷ xs) z h (inl e) = rw e h.0
  All-In P (x ∷ xs) z h (inr e) = All-In P xs z h.1 e

  apart : (a b : A) → lt (key a) (key b) ≡ true → key a ≢ key b
  apart a b h e = ground (arith, o.irrefl (key b), rw e at h)

  -- Entries of a map with the same key are the same.
  pub Ascending-unique :
      (xs : List A) (a b : A) → Ascending lt key xs → In a xs → In b xs → key a ≡ key b → a ≡ b
  Ascending-unique [] a b h i j e = absurd i
  Ascending-unique (x ∷ xs) a b h (inl i) (inl j) e = i ∙ sym j
  Ascending-unique (x ∷ xs) a b h (inl i) (inr j) e =
      absurd (apart x b (All-In _ xs b h.0 j) (ap key (sym i) ∙ e))
  Ascending-unique (x ∷ xs) a b h (inr i) (inl j) e =
      absurd (apart x a (All-In _ xs a h.0 i) (ap key (sym j) ∙ sym e))
  Ascending-unique (x ∷ xs) a b h (inr i) (inr j) e = Ascending-unique xs a b h.1 i j e

  above-All :
      (a b : A) (ys : List A)
      → lt (key a) (key b) ≡ true
      → All (λ y. lt (key b) (key y) ≡ true) ys
      → All (λ y. lt (key a) (key y) ≡ true) ys
  above-All a b [] h k = tt
  above-All a b (y ∷ ys) h k = (o.trans (key a) (key b) (key y) h k.0, above-All a b ys h k.1)

  put_entry-All :
      (P : A → Type 0) (x : A) (ys : List A) → P x → All P ys → All P (put_entry lt key x ys)
  unfolding put_entry
  put_entry-All P x [] p h = (p, tt)
  put_entry-All P x (y ∷ ys) p h = elim (Bool-cases (lt (key x) (key y))) [
    | inl below ↦ rw below (p, h)
    | inr reaches ↦ elim (Bool-cases (lt (key y) (key x))) [
      | inl above ↦ rw (reaches, above) (h.0, put_entry-All P x ys p h.1)
      | inr same ↦ rw (reaches, same) (p, h.1)
    ]
  ]

  pub put_entry-Ascending :
      (x : A) (ys : List A) → Ascending lt key ys → Ascending lt key (put_entry lt key x ys)
  unfolding put_entry
  put_entry-Ascending x [] h = (tt, tt)
  put_entry-Ascending x (y ∷ ys) h = elim (Bool-cases (lt (key x) (key y))) [
    | inl below ↦ rw below ((below, above-All x y ys below h.0), h)
    | inr reaches ↦ elim (Bool-cases (lt (key y) (key x))) [
      | inl above ↦
          rw (reaches, above)
            (
              put_entry-All (λ z. lt (key y) (key z) ≡ true) x ys above h.0,
              put_entry-Ascending x ys h.1,
            )
      | inr same ↦ rw (reaches, same) (rw (o.connected (key x) (key y) reaches same) h.0, h.1)
    ]
  ]

  -- What a map has after a write.
  put_entry-In :
      (x : A) (ys : List A) (z : A)
      → Ascending lt key ys
      → In z (put_entry lt key x ys)
      → (z ≡ x) ⊎ (In z ys × (key x ≢ key z))
  unfolding put_entry
  put_entry-In x [] z h (inl e) = inl e
  put_entry-In x [] z h (inr e) = absurd e
  put_entry-In x (y ∷ ys) z h i = elim (Bool-cases (lt (key x) (key y))) [
    | inl below ↦ elim (rw below at i) [
      | inl e ↦ inl e
      | inr e ↦ inr (e, apart x z (All-In _ (y ∷ ys) z (below, above-All x y ys below h.0) e))
    ]
    | inr reaches ↦ elim (Bool-cases (lt (key y) (key x))) [
      | inl above ↦ elim (rw (reaches, above) at i) [
        | inl e ↦ inr (inl e, λ k. apart y x above (sym (k ∙ ap key e)))
        | inr e ↦ elim (put_entry-In x ys z h.1 e) [ inl f ↦ inl f | inr (f, ne) ↦ inr (inr f, ne) ]
      ]
      | inr same ↦ elim (rw (reaches, same) at i) [
        | inl e ↦ inl e
        | inr e ↦
            let one = o.connected (key x) (key y) reaches same in
            inr (inr e, λ k. apart y z (All-In _ ys z h.0 e) (sym one ∙ k))
      ]
    ]
  ]

  pub put_entry-here : (x : A) (ys : List A) → In x (put_entry lt key x ys)
  unfolding put_entry
  put_entry-here x [] = inl refl
  put_entry-here x (y ∷ ys) = elim (Bool-cases (lt (key x) (key y))) [
    | inl below ↦ rw below (inl refl)
    | inr reaches ↦ elim (Bool-cases (lt (key y) (key x))) [
      | inl above ↦ rw (reaches, above) (inr (put_entry-here x ys))
      | inr same ↦ rw (reaches, same) (inl refl)
    ]
  ]

  put_entry-keeps :
      (x : A) (ys : List A) (z : A) → key x ≢ key z → In z ys → In z (put_entry lt key x ys)
  unfolding put_entry
  put_entry-keeps x [] z ne i = absurd i
  put_entry-keeps x (y ∷ ys) z ne i = elim (Bool-cases (lt (key x) (key y))) [
    | inl below ↦ rw below (inr i)
    | inr reaches ↦ elim (Bool-cases (lt (key y) (key x))) [
      | inl above ↦
          rw (reaches, above) (elim i [ inl e ↦ inl e | inr e ↦ inr (put_entry-keeps x ys z ne e) ])
      | inr same ↦
          rw (reaches, same)
            (elim i [
              | inl e ↦ absurd (ne (o.connected (key x) (key y) reaches same ∙ ap key (sym e)))
              | inr e ↦ inr e
            ])
    ]
  ]

  pub put_all-Ascending :
      (xs m : List A) → Ascending lt key m → Ascending lt key (put_all lt key xs m)
  unfolding put_all
  put_all-Ascending [] m h = h
  put_all-Ascending (x ∷ xs) m h =
      put_all-Ascending xs (put_entry lt key x m) (put_entry-Ascending x m h)

  pub put_all-In :
      (xs m : List A) (z : A)
      → Ascending lt key m
      → In z (put_all lt key xs m)
      → In z xs ⊎ (In z m × ((x : A) → In x xs → key x ≢ key z))
  unfolding put_all
  put_all-In [] m z h i = inr (i, λ x e. absurd e)
  put_all-In (x ∷ xs) m z h i =
      elim (put_all-In xs (put_entry lt key x m) z (put_entry-Ascending x m h) i) [
        | inl e ↦ inl (inr e)
        | inr (e, others) ↦ elim (put_entry-In x m z h e) [
          | inl f ↦ inl (inl f)
          | inr (f, ne) ↦ inr (
            f,
            λ y j. elim j [ inl same ↦ λ k. ne (ap key (sym same) ∙ k) | inr more ↦ others y more ],
          )
        ]
      ]

  pub put_all-keeps :
      (xs m : List A) (z : A)
      → ((x : A) → In x xs → key x ≢ key z)
      → In z m
      → In z (put_all lt key xs m)
  unfolding put_all
  put_all-keeps [] m z ne i = i
  put_all-keeps (x ∷ xs) m z ne i =
      put_all-keeps xs (put_entry lt key x m) z (λ y j. ne y (inr j))
        (put_entry-keeps x m z (ne x (inl refl)) i)

  -- Two maps with the same entries are the same.
  pub Ascending-ext :
      (xs ys : List A)
      → Ascending lt key xs
      → Ascending lt key ys
      → ((z : A) → In z xs → In z ys)
      → ((z : A) → In z ys → In z xs)
      → xs ≡ ys
  Ascending-ext [] [] h k f g = refl
  Ascending-ext [] (y ∷ ys) h k f g = absurd (g y (inl refl))
  Ascending-ext (x ∷ xs) [] h k f g = absurd (f x (inl refl))
  Ascending-ext (x ∷ xs) (y ∷ ys) h k f g =
      let same : x ≡ y = elim (f x (inl refl)) [
        | inl e ↦ e
        | inr i ↦ elim (g y (inl refl)) [
          | inl e ↦ sym e
          | inr j ↦
              let round =
                o.trans (key x) (key y) (key x) (All-In _ xs y h.0 j) (All-In _ ys x k.0 i) in
              absurd (ground (arith, round, o.irrefl (key x)))
        ]
      ] in
      let rest =
        Ascending-ext xs ys h.1 k.1
          (λ z i. elim (f z (inr i)) [
            | inl e ↦ absurd (apart x z (All-In _ xs z h.0 i) (ap key (same ∙ sym e)))
            | inr j ↦ j
          ])
          (λ z i. elim (g z (inr i)) [
            | inl e ↦ absurd (apart y z (All-In _ ys z k.0 i) (ap key (sym same ∙ sym e)))
            | inr j ↦ j
          ]) in
      ap₂ (λ a more. a ∷ more) same rest
